-- ===== src/Middleware/Ratelimit/Concurrent/Linear.antt =====
-- `bucket.allow` of goroutines in any interleaving, and `allow` of the calls in a row.
use go_infrastructure.Prelude.{
  ℕ, ◌≡◌, ◌≢◌, ◌<◌, refl, sym, ap, ◌∙◌, arith, true, false, inl, inr, Bool-cases, Option, none,
  some, List, [], ◌∷◌, ℤ, GoString, lookup, insert, lookup-insert, eq_str, eq_str_iff, ◌==◌,
  if◌then◌else◌,
}
use go_infrastructure.Middleware.Ratelimit.{Net, Bucket, new_bucket, allow, limiter_for}
use go_infrastructure.Middleware.Ratelimit.Concurrent.{
  update, free, missed, System, Step, ticks, calls, locks, hits, misses, makes, unlocks, Event,
  Asks, asks, Run, done, steps, answers, started,
}
use go_infrastructure.Middleware.Ratelimit.Concurrent.Invariant.{
  IsSafe, Knows-now, Step-IsSafe, Asks-IsSafe, started-IsSafe,
}

-- The answers of a bucket that serves the calls one after the other.
abbrev pub Answers : (N : Net) → Bucket N → List Event → Type 0
Answers N b [] = Unit {0}
Answers N b (e ∷ es) = ((allow N e.time e.key b).0 ≡ e.ok) × Answers N (allow N e.time e.key b).1 es

update-other : {A : Type 0} (f : ℕ → A) (i j : ℕ) (a : A) → j ≢ i → update f i a j ≡ f j
update-other f i j a n = let e : (j == i) ≡ false = ground arith in rw e

pub update-same : {A : Type 0} (f : ℕ → A) (i : ℕ) (a : A) → update f i a i ≡ a
update-same f i a = let e : (i == i) ≡ true = ground arith in rw e

module _ (N : Net) (rps burst : ℤ) where
  abbrev held : (ℕ → N.Limiter) → Option ℕ → N.Limiter
  held heap none = N.new_limiter rps burst
  held heap (some a) = heap a

  -- The bucket that a system stands for: for each key, the same limiter.
  record Shows (heap : ℕ → N.Limiter) (map : List (GoString × ℕ)) (b : Bucket N) : Type 0 where
    rps_is : b.rps ≡ rps
    burst_is : b.burst ≡ burst
    same : (k : GoString) → limiter_for N b k ≡ held heap (lookup k map)

  held-low :
      (heap : ℕ → N.Limiter) (n : ℕ) (o : Option ℕ)
      → ((a : ℕ) → o ≡ some a → a < n)
      → held heap o ≡ held (update heap n (N.new_limiter rps burst)) o
  held-low heap n none low = refl
  held-low heap n (some a) low =
      let less = low a refl in sym (update-other heap n a _ (λ e. omega arith))

  held-makes :
      (heap : ℕ → N.Limiter) (n : ℕ) (map : List (GoString × ℕ)) (key k : GoString)
      → lookup key map ≡ none
      → ((a : ℕ) → lookup k map ≡ some a → a < n)
      → held heap (lookup k map)
        ≡ held (update heap n (N.new_limiter rps burst)) (lookup k (insert key n map))
  held-makes heap n map key k e low =
      rw (lookup-insert key k n map) (elim (Bool-cases (eq_str key k)) [
        | inl t ↦
            let same : lookup k map ≡ none = rw (sym ((eq_str_iff key k).0 t)) e in
            rw (t, same) (sym (update-same heap n (N.new_limiter rps burst)))
        | inr f ↦ rw f (held-low heap n (lookup k map) low)
      ])

  held-asks :
      (heap : ℕ → N.Limiter) (a : ℕ) (l : N.Limiter) (o : Option ℕ)
      → o ≢ some a
      → held heap o ≡ held (update heap a l) o
  held-asks heap a l none n = refl
  held-asks heap a l (some c) n = sym (update-other heap a c l (λ e. n (ap some e)))

  limiter_for-allow :
      (t : ℕ) (key k : GoString) (b : Bucket N)
      → limiter_for N (allow N t key b).1 k
        ≡ (if eq_str key k then (N.allow_at t (limiter_for N b key)).1 else limiter_for N b k)
  unfolding allow limiter_for
  limiter_for-allow t key k b =
      rw (limiter_for, lookup-insert key k (N.allow_at t (limiter_for N b key)).1 b.limiters)
        (elim (Bool-cases (eq_str key k)) [ inl e ↦ rw e refl | inr e ↦ rw e refl ])

  Step-Shows :
      (s u : System N) (b : Bucket N)
      → IsSafe s
      → Shows s.heap s.map b
      → Step N rps burst s u
      → Shows u.heap u.map b
  Step-Shows s u b safe shows (makes i key e) = record {
    rps_is = shows.rps_is;
    burst_is = shows.burst_is;
    same = λ k.
        shows.same k
        ∙ held-makes s.heap s.next s.map key k (Knows-now rps burst safe i (missed key) e)
            (λ a h. safe.below k a h);
  }
  Step-Shows s u b safe shows (ticks d) = shows
  Step-Shows s u b safe shows (calls i key e) = shows
  Step-Shows s u b safe shows (locks i key e n) = shows
  Step-Shows s u b safe shows (hits i key a e h) = shows
  Step-Shows s u b safe shows (misses i key e h) = shows
  Step-Shows s u b safe shows (unlocks i key a e) = shows

  -- The limiter that a goroutine holds is the one of its key.
  limiter_for-held :
      (s : System N) (b : Bucket N) (key : GoString) (a : ℕ)
      → Shows s.heap s.map b
      → lookup key s.map ≡ some a
      → limiter_for N b key ≡ s.heap a
  limiter_for-held s b key a shows h = shows.same key ∙ ap (held s.heap) h

  Asks-same :
      (s : System N) (b : Bucket N) (key k : GoString) (a : ℕ)
      → IsSafe s
      → Shows s.heap s.map b
      → lookup key s.map ≡ some a
      → limiter_for N (allow N s.clock key b).1 k
        ≡ held (update s.heap a (N.allow_at s.clock (s.heap a)).1) (lookup k s.map)
  Asks-same s b key k a safe shows h =
      limiter_for-allow s.clock key k b ∙ elim (Bool-cases (eq_str key k)) [
        | inl e ↦
            let mine : lookup k s.map ≡ some a = rw (sym ((eq_str_iff key k).0 e)) h in
            rw (e, mine, limiter_for-held s b key a shows h) (sym (update-same s.heap a _))
        | inr e ↦ rw e (
            shows.same k
            ∙ held-asks s.heap a _ (lookup k s.map)
                (λ o. ground (arith, eq_str_iff key k, safe.apart key k a h o)))
      ]

  Asks-Shows :
      (s u : System N) (b : Bucket N) (e : Event)
      → IsSafe s
      → Shows s.heap s.map b
      → Asks N rps burst s e u
      → ((allow N e.time e.key b).0 ≡ e.ok) × Shows u.heap u.map (allow N e.time e.key b).1
  unfolding allow
  Asks-Shows s u b e safe shows (asks i key a p) =
      let h = Knows-now rps burst safe i (free key a) p in
      (
        ap (λ l. (N.allow_at s.clock l).0) (limiter_for-held s b key a shows h),
        record {
          rps_is = shows.rps_is;
          burst_is = shows.burst_is;
          same = λ k. Asks-same s b key k a safe shows h;
        },
      )

  Run-Answers :
      (s t : System N) (es : List Event) (b : Bucket N)
      → IsSafe s
      → Shows s.heap s.map b
      → Run N rps burst s es t
      → Answers N b es
  Run-Answers s t _ b safe shows done = tt
  Run-Answers s t es b safe shows (steps {u = u} st run) =
      Run-Answers u t es b (Step-IsSafe rps burst s u safe st) (Step-Shows s u b safe shows st) run
  Run-Answers s t (e ∷ es) b safe shows (answers {u = u} st run) =
      let (ok, next) = Asks-Shows s u b e safe shows st in
      (
        ok,
        Run-Answers u t es (allow N e.time e.key b).1 (Asks-IsSafe rps burst s u e safe st) next
            run,
      )

  -- However the steps of the goroutines interleave from a new bucket, each call of `Allow` has the
  -- answer that the calls, one after the other in their order, have from `allow`: the lock makes
  -- one limiter for each key, and `Allow` outside of it is on that one.
  pub started-Answers :
      (t : ℕ) (u : System N) (es : List Event)
      → Run N rps burst (started N rps burst t) es u
      → Answers N (new_bucket N rps burst) es
  unfolding new_bucket limiter_for lookup
  started-Answers t u es run =
      Run-Answers (started N rps burst t) u es (new_bucket N rps burst)
        (started-IsSafe N rps burst t) (record { rps_is = refl; burst_is = refl; same = λ k. refl })
        run
