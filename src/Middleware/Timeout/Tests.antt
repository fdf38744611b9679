-- ===== src/Middleware/Timeout/Tests.antt =====
-- The timeout theorems at a handler that answers, panics or hangs by the request.
use go_infrastructure.Prelude.{ℕ, zero, suc, ◌≡◌, refl, none, some, [], pos, leb_ℤ, codes}
use go_infrastructure.Kratos.Sample.{sample, SampleError, SampleKratos}
use go_infrastructure.Middleware.Handler.{Context, returned, panicked, crashed, Handler}
use go_infrastructure.Middleware.Timeout.{Options, Race, server}
use go_infrastructure.Middleware.Timeout.Deadline.{server-overdue, server-fatal}
use go_infrastructure.Server.Sample.{sample_kratos}

abbrev rpc : Context ℕ
rpc = record {
  server = some (record { kind = codes "grpc"; operation = codes "/kris.User/Get"; get = λ k. [] });
  client = none;
  span = none;
  peer = none;
  values = [];
}

abbrev one_second : Options sample
one_second = record { timeout = pos 1_000_000_000; skip = none }

-- The world is the time that the handler takes, in nanoseconds.
abbrev race : Race sample ℕ
race = record { answers_first = λ d w. leb_ℤ (pos w) d; abandon = λ w. w }

abbrev handler : Handler sample ℕ
handler ctx zero w = (panicked 7, w)
handler ctx (suc n) w = (returned (some n) none, w)

server-overdue_run :
    (e : SampleKratos) × (server sample race one_second handler rpc 0 2_000_000_000
      ≡ (returned none (some (SampleError.kratos e)), 2_000_000_000))
    × (e.code ≡ 504)
    × (e.reason ≡ codes "DEADLINE_EXCEEDED")
server-overdue_run =
    server-overdue sample race one_second handler rpc 0 2_000_000_000 refl refl refl

server-fatal_example :
    sample_kratos.recover
      (λ c r v w. (SampleError.plain, w))
      (server sample race one_second handler)
      rpc
      0
      9
    ≡ (crashed, 9)
server-fatal_example =
    server-fatal sample race sample_kratos (λ c r v w. (SampleError.plain, w)) one_second handler
      rpc 0 7 9 9 refl refl refl refl
