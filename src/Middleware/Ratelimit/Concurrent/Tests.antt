-- ===== src/Middleware/Ratelimit/Concurrent/Tests.antt =====
-- Two goroutines that ask for a token of the same new bucket.
use go_infrastructure.Prelude.{
  ℕ, ◌+◌, ◌*◌, ◌≤◌, ◌≡◌, ◌⊎◌, some, refl, true, false, List, [], ◌∷◌, pos, GoString, codes, lookup,
  insert, eq_str,
}
use go_infrastructure.Middleware.Ratelimit.{new_bucket}
use go_infrastructure.Middleware.Ratelimit.Sample.{draining, draining-IsTokenBucket}
use go_infrastructure.Middleware.Ratelimit.Quota.{token}
use go_infrastructure.Middleware.Ratelimit.Concurrent.{
  System, ticks, calls, locks, hits, misses, makes, unlocks, Event, asks, Run, done, steps, answers,
  started,
}
use go_infrastructure.Middleware.Ratelimit.Concurrent.Linear.{Answers, started-Answers}
use go_infrastructure.Middleware.Ratelimit.Concurrent.Progress.{Moves, Run-Moves}
use go_infrastructure.Middleware.Ratelimit.Concurrent.Bound.{served, served-le}

abbrev a : GoString
a = codes "a"

-- The second goroutine takes the one token from the limiter that the first has made.
abbrev overtaken : List Event
overtaken = record { time = 7; key = a; ok = true } ∷ record { time = 7; key = a; ok = false } ∷ []

overtaking :
    (u : System draining) × Run draining
      (pos 0)
      (pos 1)
      (started draining (pos 0) (pos 1) 4)
      overtaken
      u
unfolding lookup insert eq_str
overtaking = (
  _,
  steps (calls 1 a refl) (
      steps (calls 2 a refl) (
        steps (locks 1 a refl refl) (
          steps (misses 1 a refl refl) (
            steps (makes 1 a refl) (
              steps (unlocks 1 a 0 refl) (
                steps (ticks 3) (
                  steps (locks 2 a refl refl) (
                    steps (hits 2 a 0 refl refl) (
                      steps (unlocks 2 a 0 refl)
                        (answers (asks 2 a 0 refl) (answers (asks 1 a 0 refl) done))))))))))),
)

started-Answers_example : Answers draining (new_bucket draining (pos 0) (pos 1)) overtaken
started-Answers_example =
    started-Answers draining (pos 0) (pos 1) 4 (overtaking.0) overtaken (overtaking.1)

served-le_example : served a overtaken * token + 0 * 4 ≤ 1 * token + 0 * (overtaking.0).clock
served-le_example =
    served-le draining (λ l. l.rate) (λ t l. l.left * token) draining-IsTokenBucket 0 1 4 a
      overtaken (overtaking.0) (overtaking.1)

served_run : served a overtaken ≡ 1
unfolding served eq_str
served_run = refl

-- The second goroutine waits for the first, which has missed the key.
abbrev blocked :
    (u : System draining) × Run draining (pos 0) (pos 1) (started draining (pos 0) (pos 1) 4) [] u
blocked = (_, steps (calls 1 a refl) (steps (calls 2 a refl) (steps (locks 1 a refl refl) done)))

Run-Moves_example :
    Moves draining (pos 0) (pos 1) (blocked.0) 2
    ⊎ ((j : ℕ) × ((blocked.0).mu ≡ some j) × Moves draining (pos 0) (pos 1) (blocked.0) j)
Run-Moves_example =
    Run-Moves draining (pos 0) (pos 1) 4 2 (blocked.0) [] (blocked.1) (λ e. absurd (cc e))
