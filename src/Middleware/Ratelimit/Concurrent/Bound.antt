-- ===== src/Middleware/Ratelimit/Concurrent/Bound.antt =====
-- What goroutines in any interleaving admit under a key.
use go_infrastructure.Prelude.{
  ℕ, ◌+◌, ◌-◌, ◌*◌, ◌≤◌, ◌≡◌, refl, ap, arith, List, [], ◌∷◌, ℤ, pos, GoString, eq_str, ◌&&◌,
  if◌then◌else◌,
}
use go_infrastructure.Middleware.Ratelimit.{Net, Bucket, new_bucket, allow}
use go_infrastructure.Middleware.Ratelimit.Quota.{
  token, IsTokenBucket, admitted, elapsed, admitted-le,
}
use go_infrastructure.Middleware.Ratelimit.Concurrent.{
  System, Step, ticks, calls, locks, hits, misses, makes, unlocks, Event, Asks, asks, Run, done,
  steps, answers, started,
}
use go_infrastructure.Middleware.Ratelimit.Concurrent.Linear.{Answers, started-Answers}

-- How many calls for the key `k` were allowed.
unfoldable pub served : GoString → List Event → ℕ
served k [] = 0
served k (e ∷ es) = (if e.ok && eq_str e.key k then 1 else 0) + served k es

-- The calls as requests, each at a time behind the one before it.
abbrev gaps : ℕ → List Event → List (ℕ × GoString)
gaps t [] = []
gaps t (e ∷ es) = (e.time - t, e.key) ∷ gaps e.time es

-- Times that do not go back, from `t` to `u`.
abbrev Follows : ℕ → ℕ → List Event → Type 0
Follows t u [] = t ≤ u
Follows t u (e ∷ es) = (t ≤ e.time) × Follows e.time u es

Follows-later : (t t' u : ℕ) (es : List Event) → t ≤ t' → Follows t' u es → Follows t u es
Follows-later t t' u [] le f = omega arith
Follows-later t t' u (e ∷ es) le (here, rest) = (omega arith, rest)

elapsed-gaps :
    (N : Net) (t u : ℕ) (es : List Event) → Follows t u es → elapsed N (gaps t es) + t ≤ u
unfolding elapsed
elapsed-gaps N t u [] f = omega arith
elapsed-gaps N t u (e ∷ es) (here, rest) = omega (arith, elapsed-gaps N e.time u es rest)

module _ (N : Net) (rps burst : ℤ) where
  Step-clock : (s u : System N) → Step N rps burst s u → s.clock ≤ u.clock
  Step-clock s u (ticks d) = omega arith
  Step-clock s u (calls i key e) = omega arith
  Step-clock s u (locks i key e n) = omega arith
  Step-clock s u (hits i key a e h) = omega arith
  Step-clock s u (misses i key e h) = omega arith
  Step-clock s u (makes i key e) = omega arith
  Step-clock s u (unlocks i key a e) = omega arith

  Asks-clock :
      (s u : System N) (e : Event)
      → Asks N rps burst s e u
      → (e.time ≡ s.clock) × (u.clock ≡ s.clock)
  Asks-clock s u e (asks i key a p) = (refl, refl)

  Run-Follows :
      (s u : System N) (es : List Event) → Run N rps burst s es u → Follows s.clock u.clock es
  Run-Follows s u _ done = omega arith
  Run-Follows s t es (steps {u = u} st run) =
      Follows-later s.clock u.clock t.clock es (Step-clock s u st) (Run-Follows u t es run)
  Run-Follows s t (e ∷ es) (answers {u = u} st run) =
      let (at, stays) = Asks-clock s u e st in
      (omega arith, Follows-later e.time u.clock t.clock es (omega arith) (Run-Follows u t es run))

  served-admitted :
      (k : GoString) (t u : ℕ) (b : Bucket N) (es : List Event)
      → Follows t u es
      → Answers N b es
      → served k es ≡ admitted N k t (gaps t es) b
  unfolding served admitted
  served-admitted k t u b [] f a = refl
  served-admitted k t u b (e ∷ es) (here, rest) (ok, next) =
      let at : t + (e.time - t) ≡ e.time = omega arith in
      rw (at, ok, served-admitted k e.time u (allow N e.time e.key b).1 es rest next) refl

-- Over any interleaving, from a new bucket with a rate of `r` tokens in a second, the calls that are
-- allowed for a key are at most `burst` and what the rate gives in the time that has passed.
pub served-le :
    (N : Net) (rate : N.Limiter → ℕ) (credit : ℕ → N.Limiter → ℕ)
    → IsTokenBucket N rate credit
    → (r burst t : ℕ) (k : GoString) (es : List Event) (u : System N)
    → Run N (pos r) (pos burst) (started N (pos r) (pos burst) t) es u
    → served k es * token + r * t ≤ burst * token + r * u.clock
served-le N rate credit law r burst t k es u run =
    let s = started N (pos r) (pos burst) t in
    let f : Follows t u.clock es = Run-Follows N (pos r) (pos burst) s u es run in
    let x = elapsed N (gaps t es) in
    let w : u.clock ≡ x + t + (u.clock - (x + t)) = omega (arith, elapsed-gaps N t u.clock es f) in
    let same =
      served-admitted N (pos r) (pos burst) k t u.clock (new_bucket N (pos r) (pos burst)) es f
        (started-Answers N (pos r) (pos burst) t u es run) in
    omega
      (arith, same, ap (λ (c : ℕ). r * c) w, admitted-le N rate credit law r burst k t (gaps t es))
