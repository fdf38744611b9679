-- ===== src/Middleware/Ratelimit/Concurrent/Progress.antt =====
-- Which goroutine can move at the mutex of the bucket.
use go_infrastructure.Prelude.{
  ℕ, ◌≡◌, ◌≢◌, ◌<◌, ◌⊎◌, inl, inr, refl, arith, Option, some, List, ◌∷◌, ℤ, lookup, Option-cases,
}
use go_infrastructure.Middleware.Ratelimit.{Net}
use go_infrastructure.Middleware.Ratelimit.Concurrent.{
  update, Pc, idle, waits, locked, missed, found, free, System, Step, ticks, calls, locks, hits,
  misses, makes, unlocks, Event, Asks, asks, Run, done, steps, answers, started,
}
use go_infrastructure.Middleware.Ratelimit.Concurrent.Invariant.{update-all}
use go_infrastructure.Middleware.Ratelimit.Concurrent.Linear.{update-same}

-- How many steps of its own a goroutine has left at most.
abbrev pub left : Pc → ℕ
left idle = 0
left (free key a) = 1
left (found key a) = 2
left (missed key) = 3
left (locked key) = 4
left (waits key) = 5

-- Between `Lock` and `Unlock`.
abbrev Inside : Pc → Type 0
Inside (locked key) = Unit {0}
Inside (missed key) = Unit {0}
Inside (found key a) = Unit {0}
Inside _ = ⊥

-- The goroutine that the mutex names is inside.
abbrev Held : Option ℕ → (ℕ → Pc) → Type 0
Held mu pc = (j : ℕ) → mu ≡ some j → Inside (pc j)

-- A goroutine that does not have the mutex moves.
Held-moves :
    (mu : Option ℕ) (pc : ℕ → Pc) (i : ℕ) (p : Pc)
    → (Inside (pc i) → Inside p)
    → Held mu pc
    → Held mu (update pc i p)
Held-moves mu pc i p go h =
    update-all pc i p (λ j q. mu ≡ some j → Inside q) (λ e. go (h i e)) (λ j n e. h j e)

module _ (N : Net) (rps burst : ℤ) where
  Held-Step : (s u : System N) → Held s.mu s.pc → Step N rps burst s u → Held u.mu u.pc
  Held-Step s u h (ticks d) = h
  Held-Step s u h (calls i key e) = Held-moves s.mu s.pc i (waits key) (λ x. rw e at x) h
  Held-Step s u h (locks i key e n) =
      update-all s.pc i (locked key) (λ j q. some i ≡ some j → Inside q) (λ e. tt)
        (λ j n e. absurd (ground arith))
  Held-Step s u h (hits i key a e l) = Held-moves s.mu s.pc i (found key a) (λ x. tt) h
  Held-Step s u h (misses i key e l) = Held-moves s.mu s.pc i (missed key) (λ x. tt) h
  Held-Step s u h (makes i key e) = Held-moves s.mu s.pc i (found key s.next) (λ x. tt) h
  Held-Step s u h (unlocks i key a e) = λ j m. absurd (cc m)

  Held-Asks :
      (s u : System N) (e : Event) → Held s.mu s.pc → Asks N rps burst s e u → Held u.mu u.pc
  Held-Asks s u e h (asks i key a p) = Held-moves s.mu s.pc i idle (λ x. rw p at x) h

  Held-Run :
      (s u : System N) (es : List Event) → Held s.mu s.pc → Run N rps burst s es u → Held u.mu u.pc
  Held-Run s u _ h done = h
  Held-Run s t es h (steps {u = u} st run) = Held-Run u t es (Held-Step s u h st) run
  Held-Run s t (e ∷ es) h (answers {u = u} st run) = Held-Run u t es (Held-Asks s u e h st) run

  -- A goroutine makes a step of its own.
  abbrev pub Moves : System N → ℕ → Type 0
  Moves s j =
      (u : System N) × (Step N rps burst s u ⊎ ((e : Event) × Asks N rps burst s e u))
      × (left (u.pc j) < left (s.pc j))

  -- One that is inside can move, and so can one that is past the lock.
  Inside-Moves : (s : System N) (j : ℕ) (p : Pc) → s.pc j ≡ p → Inside p → Moves s j
  Inside-Moves s j (locked key) e i = elim (Option-cases (lookup key s.map)) [
    | inl n ↦ (_, inl (misses j key e n), rw (update-same s.pc j (missed key), e) (omega arith))
    | inr (a, l) ↦
        (_, inl (hits j key a e l), rw (update-same s.pc j (found key a), e) (omega arith))
  ]
  Inside-Moves s j (missed key) e i =
      (_, inl (makes j key e), rw (update-same s.pc j (found key s.next), e) (omega arith))
  Inside-Moves s j (found key a) e i =
      (_, inl (unlocks j key a e), rw (update-same s.pc j (free key a), e) (omega arith))
  Inside-Moves s j idle e i = elim i [ ]
  Inside-Moves s j (waits key) e i = elim i [ ]
  Inside-Moves s j (free key a) e i = elim i [ ]

  -- A goroutine in a call, by where it stands.
  Held-Moves :
      (u : System N) (i : ℕ) (p : Pc)
      → Held u.mu u.pc
      → u.pc i ≡ p
      → p ≢ idle
      → Moves u i ⊎ ((j : ℕ) × (u.mu ≡ some j) × Moves u j)
  Held-Moves u i idle h e busy = absurd (busy refl)
  Held-Moves u i (waits key) h e busy = elim (Option-cases u.mu) [
    | inl n ↦ inl (_, inl (locks i key e n), rw (update-same u.pc i (locked key), e) (omega arith))
    | inr (j, m) ↦ inr (j, m, Inside-Moves u j (u.pc j) refl (h j m))
  ]
  Held-Moves u i (locked key) h e busy = inl (Inside-Moves u i (locked key) e tt)
  Held-Moves u i (missed key) h e busy = inl (Inside-Moves u i (missed key) e tt)
  Held-Moves u i (found key a) h e busy = inl (Inside-Moves u i (found key a) e tt)
  Held-Moves u i (free key a) h e busy =
      inl (_, inr (_, asks i key a e), rw (update-same u.pc i idle, e) (omega arith))

  -- In every state that goroutines on a new bucket reach, one that is in a call can make a step of
  -- its own, or it waits at the lock for another that can. Each such step brings its goroutine nearer to
  -- the end of its call.
  pub Run-Moves :
      (t i : ℕ) (u : System N) (es : List Event)
      → Run N rps burst (started N rps burst t) es u
      → u.pc i ≢ idle
      → Moves u i ⊎ ((j : ℕ) × (u.mu ≡ some j) × Moves u j)
  Run-Moves t i u es run busy =
      let h = Held-Run (started N rps burst t) u es (λ j m. absurd (cc m)) run in
      Held-Moves u i (u.pc i) h refl busy
