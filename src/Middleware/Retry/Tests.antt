-- ===== src/Middleware/Retry/Tests.antt =====
-- The retry theorems at a server that answers 503 twice.
use Prim.Native.Nat.{min}
use go_infrastructure.Prelude.{
  ℕ, zero, suc, ◌-◌, ◌*◌, ◌^◌, ◌≤◌, ◌≡◌, ◌↔◌, refl, arith, Bool, true, false, Option, none, some,
  [], pos, codes, wrap64, ◌+ℤ◌, ◌-ℤ◌, ◌*ℤ◌, ◌/ℤ◌,
}
use go_infrastructure.Kratos.Sample.{sample, SampleError, kratos, deadline_exceeded}
use go_infrastructure.Middleware.Handler.{Outcome, returned}
use go_infrastructure.Middleware.Retry.{Env, defaults, backoff_for, default_retry_on, client}
use go_infrastructure.Middleware.Retry.Backoff.{
  Fits, backoff_for_bounds, backoff_for_schedule, backoff_for_panics,
}
use go_infrastructure.Middleware.Retry.Attempts.{recorded, IsRun, client-IsRun}
use go_infrastructure.Middleware.Retry.Recovery.{Recovers, client-succeeds}
use go_infrastructure.Middleware.Retry.Predicate.{IsTransient, default_retry_on_iff}

backoff_for_bounds_run :
    (d : ℕ) × (backoff_for 60 (pos 100_000_000) (pos 2_000_000_000) 77 ≡ some (pos d))
    × (1 ≤ d)
    × (d ≤ 2_000_000_000)
backoff_for_bounds_run =
    backoff_for_bounds 60 100_000_000 2_000_000_000 77 (omega arith) (omega arith) (omega arith)
      (omega arith)

backoff_for_schedule_run :
    (d : ℕ) × (backoff_for 2 (pos 100_000_000) (pos 2_000_000_000) 77 ≡ some (pos d))
    × Fits (min (100_000_000 * 2 ^ (2 - 1)) 2_000_000_000) 2_000_000_000 d
backoff_for_schedule_run =
    backoff_for_schedule 2 100_000_000 2_000_000_000 77 (omega arith) (omega arith) (omega arith)
      (omega arith)

second_backoff : backoff_for 2 (pos 100_000_000) (pos 2_000_000_000) 77 ≡ some (pos 150_000_077)
unfolding backoff_for wrap64 ◌+ℤ◌ ◌-ℤ◌ ◌*ℤ◌ ◌/ℤ◌
second_backoff = refl

backoff_for_panics_example : backoff_for 1 (pos 100_000_000) (pos 0) 77 ≡ none
backoff_for_panics_example = backoff_for_panics 1 (pos 100_000_000) (pos 0) 77 (omega arith)

abbrev busy_answer : SampleError
busy_answer = kratos (record { code = 503; reason = codes "BUSY"; message = [] })

abbrev failing : ℕ → Outcome sample × ℕ
failing zero = (returned (some 9) none, zero)
failing (suc n) = (returned none (some busy_answer), n)

abbrev server : Env sample ℕ
server = record {
  handler = failing;
  ctx_err = λ w. none;
  draw = λ w. (5, w);
  timer_fires = λ d w. (true, w);
  int63n_panic = 0;
}

client-IsRun_example :
    IsRun sample server
      (defaults sample)
      (client sample (recorded sample server) (defaults sample) (2, []))
client-IsRun_example = client-IsRun sample server (defaults sample) 2 (omega arith)

client_run : (client sample server (defaults sample) 2).0 ≡ returned (some 9) none
unfolding client wrap64 ◌+ℤ◌ ◌-ℤ◌ ◌*ℤ◌ ◌/ℤ◌
client_run = refl

default_retry_on_iff_run : (default_retry_on sample (some deadline_exceeded) ≡ true) ↔ (
    (◌≡◌ {A = Bool} false false)
    × (◌≡◌ {A = Bool} true false)
    × IsTransient sample deadline_exceeded)
default_retry_on_iff_run = default_retry_on_iff sample deadline_exceeded

busy_retried :
    (w n : ℕ)
    → w ≡ suc n
    → (reply : Option ℕ) × (e : SampleError) × (w' : ℕ) × (failing w
        ≡ (returned reply (some e), w'))
      × (default_retry_on sample (some e) ≡ true)
      × (w' ≡ n)
unfolding default_retry_on
busy_retried w n h = (none, busy_answer, n, rw h, refl, refl)

server-Recovers : Recovers sample server (defaults sample) (λ w. w)
server-Recovers = record {
  alive = λ w. refl;
  fires = λ d w. refl;
  fails-timer = λ d w. refl;
  fails-draw = λ w. refl;
  succeeds = λ w h. (some 9, zero, rw h);
  retried = busy_retried;
}

client-succeeds_example :
    (w0 : ℕ) × (reply : Option ℕ) × (w' : ℕ) × (w0 ≡ 0)
    × (client sample server (defaults sample) 2 ≡ failing w0)
    × (failing w0 ≡ (returned reply none, w'))
client-succeeds_example =
    client-succeeds sample server (defaults sample) (λ w. w) server-Recovers 100_000_000
      2_000_000_000 2 3 (omega arith) (omega arith) (omega arith) (omega arith) refl refl refl
      (omega arith)
