-- ===== src/Middleware/Timeout/Goroutine/Tests.antt =====
-- A handler that returns after its caller has given up.
use go_infrastructure.Prelude.{◌≡◌, refl, true, some, none, [], ℕ, suc, pos}
use go_infrastructure.Kratos.Sample.{sample, SampleError}
use go_infrastructure.Middleware.Handler.{Context, Outcome, returned, Handler}
use go_infrastructure.Middleware.Timeout.{Options, err_deadline_exceeded}
use go_infrastructure.Middleware.Timeout.Goroutine.{
  ended, answered, Call, Step, others, expires, finishes, gives_up, begun, Reach, stays, goes,
}
use go_infrastructure.Middleware.Timeout.Goroutine.Safe.{Serves}
use go_infrastructure.Middleware.Timeout.Goroutine.Answer.{Reach-Serves, Reach-sends}

abbrev slow : Handler sample ℕ
slow ctx req w = (returned (some req) none, 6)

abbrev rpc : Context ℕ
rpc = record { server = none; client = none; span = none; peer = none; values = [] }

abbrev one_second : Options sample
one_second = record { timeout = pos 1_000_000_000; skip = none }

abbrev late : Outcome sample
late = returned none (some (SampleError.kratos (err_deadline_exceeded sample)))

-- The rest of the process may count on.
abbrev Counts : ℕ → ℕ → Type 0
Counts a b = b ≡ suc a

abbrev State : Type 0
State = Call sample ℕ

abbrev given_up : (s : State) × Reach sample Counts slow rpc 4 (begun sample Counts slow rpc 4 5) s
given_up = (
  _,
  goes (goes (goes (goes stays (expires refl)) (gives_up refl refl)) (others 6 refl))
      (finishes (some 4) none 6 refl refl),
)

Reach-Serves_example : Serves sample Counts slow rpc 4 one_second 5 late (some 6) true
Reach-Serves_example =
    Reach-Serves sample Counts slow rpc 4 one_second 5 (given_up.0) late refl refl (given_up.1) refl

Reach-sends_example :
    (u : State) × Step sample Counts slow rpc 4 (given_up.0) u
    × (u.worker ≡ ended (some 4) none)
    × (u.chan ≡ some (some 4, none))
    × (u.caller ≡ answered late)
    × ((v : State) × Reach sample Counts slow rpc 4 u v
        × (v.worker ≡ ended (some 4) none)
        × (v.caller ≡ answered late))
Reach-sends_example =
    Reach-sends sample Counts slow rpc 4 5 (given_up.0) (some 4) none (given_up.1) refl
