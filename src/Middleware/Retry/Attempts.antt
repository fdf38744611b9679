-- ===== src/Middleware/Retry/Attempts.antt =====
-- How a run of the retry loop ends, told by the answers that the handler gave.
use go_infrastructure.Prelude.{
  ℕ, zero, suc, ◌+◌, ◌-◌, ◌≡◌, ◌⊎◌, inl, inr, refl, ap, arith, true, false, Bool-cases, Option,
  none, some, Option-cases, List, [], ◌∷◌, length, All, ℤ, pos, ◌≤ℤ◌, leb_ℤ, eq_ℤ, pos_part,
}
use go_infrastructure.Kratos.Defs.{Platform}
use go_infrastructure.Middleware.Handler.{Outcome, returned, panicked, crashed}
use go_infrastructure.Middleware.Retry.{
  Options, Env, backoff_for, sleep_with_ctx, pause, answer, attempts, client,
}

max_pos : (m : ℤ) → pos 2 ≤ℤ m → pos (1 + (pos_part m - 1)) ≡ m
max_pos m h = ground arith

module _ (P : Platform) {W : Type 0} (env : Env P W) where
  open P use {Any, Err}

  abbrev pub History : Type 0
  History = List (Outcome P)

  -- The same surroundings, with the handler's answers noted, the newest first.
  abbrev pub recorded : Env P (W × History)
  recorded = record {
    handler = λ s. ((env.handler s.0).0, ((env.handler s.0).1, (env.handler s.0).0 ∷ s.1));
    ctx_err = λ s. env.ctx_err s.0;
    draw = λ s. ((env.draw s.0).0, ((env.draw s.0).1, s.1));
    timer_fires = λ d s. ((env.timer_fires d s.0).0, ((env.timer_fires d s.0).1, s.1));
    int63n_panic = env.int63n_panic;
  }

  module _ (o : Options P) where
    -- An answer after which the loop goes on: an error that the predicate accepts.
    abbrev pub IsRetried : Outcome P → Type 0
    IsRetried (returned reply (some e)) = o.retry_on (some e) ≡ true
    IsRetried _ = ⊥

    -- The ways a run ends, by the outcome and the answers.
    pub data IsEnd : Outcome P → History → Type 0 where
      success :
          (reply : Option Any) (h : History)
          → All IsRetried h
          → IsEnd (returned reply none) (returned reply none ∷ h)
      refused :
          (reply : Option Any) (e : Err) (h : History)
          → All IsRetried h
          → o.retry_on (some e) ≡ false
          → IsEnd (returned none (some e)) (returned reply (some e) ∷ h)
      exhausted :
          (reply : Option Any) (e : Err) (h : History)
          → All IsRetried h
          → o.retry_on (some e) ≡ true
          → pos (suc (length h)) ≡ o.max_attempts
          → IsEnd (returned none (some e)) (returned reply (some e) ∷ h)
      stopped :
          (e : Err) (h : History) (w : W)
          → All IsRetried h
          → env.ctx_err w ≡ some e
          → IsEnd (returned none (some e)) h
      no_backoff :
          (draw : ℕ) (h : History)
          → All IsRetried h
          → backoff_for (length h) o.initial_backoff o.max_backoff draw ≡ none
          → IsEnd (panicked env.int63n_panic) h
      handler_panicked :
          (v : Any) (h : History) → All IsRetried h → IsEnd (panicked v) (panicked v ∷ h)
      handler_crashed : (h : History) → All IsRetried h → IsEnd crashed (crashed ∷ h)

    -- A run that ended so within the allowed number of calls.
    pub record IsRun (out : Outcome P × (W × History)) : Type 0 where
      pub ended : IsEnd out.0 out.1.1
      pub bounded : pos (length out.1.1) ≤ℤ o.max_attempts

    sleep_cases :
        (d : ℤ) (w : W) (h : History)
        → (w' : W) × ((sleep_with_ctx P recorded d (w, h) ≡ (none, (w', h)))
            ⊎ ((e : Err) × (sleep_with_ctx P recorded d (w, h) ≡ (some e, (w', h)))
                × (env.ctx_err w' ≡ some e)))
    unfolding sleep_with_ctx
    sleep_cases d w h = elim (Bool-cases (leb_ℤ d (pos 0))) [
      | inl now ↦ (w, inl (rw (now, sleep_with_ctx)))
      | inr later ↦ (
        (env.timer_fires d w).1,
        elim (Bool-cases (env.timer_fires d w).0) [
          | inl fired ↦ inl (rw (later, sleep_with_ctx, fired))
          | inr done ↦ elim (Option-cases (env.ctx_err (env.timer_fires d w).1)) [
            | inl n ↦ inl (rw (later, sleep_with_ctx, done, n))
            | inr (e, s) ↦ inr (e, rw (later, sleep_with_ctx, done, s), s)
          ]
        ],
      )
    ]

    pause-IsRun :
        (attempt : ℕ) (next : W × History → Outcome P × (W × History)) (w : W) (h : History)
        → attempt ≡ length h
        → All IsRetried h
        → pos (length h) ≤ℤ o.max_attempts
        → ((w' : W) → IsRun (next (w', h)))
        → IsRun (pause P recorded o attempt next (w, h))
    unfolding pause
    pause-IsRun attempt next w h n a b go =
        let (r, w1) = env.draw w in
        elim (Option-cases (backoff_for attempt o.initial_backoff o.max_backoff r)) [
          | inl none_left ↦
              rw (none_left, pause)
                (record { ended = no_backoff r h a (rw (← n) none_left); bounded = b })
          | inr (d, s) ↦
              rw (s, pause)
                (let (w', ends) = sleep_cases d w1 h in
                  elim ends [
                    | inl clean ↦ rw clean (rw clean (go w'))
                    | inr (e, cut, c) ↦
                        rw cut (rw cut (record { ended = stopped e h w' a c; bounded = b }))
                  ])
        ]

    answer-IsRun :
        (attempt : ℕ) (next : Option Err → W × History → Outcome P × (W × History))
        (out : Outcome P) (w : W) (h : History)
        → attempt ≡ suc (length h)
        → All IsRetried h
        → pos attempt ≤ℤ o.max_attempts
        → ((reply : Option Any) (e : Err)
            → o.retry_on (some e) ≡ true
            → eq_ℤ (pos attempt) o.max_attempts ≡ false
            → (w' : W) → IsRun (next (some e) (w', returned reply (some e) ∷ h)))
        → IsRun (answer P recorded o attempt next (out, (w, out ∷ h)))
    unfolding answer
    answer-IsRun attempt next (returned reply none) w h n a b go = record {
      ended = success reply h a;
      bounded = rw (← n) b;
    }
    answer-IsRun attempt next (returned reply (some e)) w h n a b go =
        elim (Bool-cases (o.retry_on (some e))) [
          | inr no_more ↦
              rw no_more (record { ended = refused reply e h a no_more; bounded = rw (← n) b })
          | inl again ↦ elim (Bool-cases (eq_ℤ (pos attempt) o.max_attempts)) [
            | inl full ↦
                rw (again, full)
                  (record {
                    ended = exhausted reply e h a again (ground arith);
                    bounded = rw (← n) b;
                  })
            | inr room ↦
                rw (again, room)
                  (pause-IsRun attempt (next (some e)) w (returned reply (some e) ∷ h) n (again, a)
                    (rw (← n) b) (go reply e again room))
          ]
        ]
    answer-IsRun attempt next (panicked v) w h n a b go = record {
      ended = handler_panicked v h a;
      bounded = rw (← n) b;
    }
    answer-IsRun attempt next crashed w h n a b go = record {
      ended = handler_crashed h a;
      bounded = rw (← n) b;
    }

    -- One round, given that what follows a retried answer is a run.
    round-IsRun :
        (left attempt : ℕ) (last : Option Err) (w : W) (h : History)
        → attempt ≡ suc (length h)
        → All IsRetried h
        → pos attempt ≤ℤ o.max_attempts
        → ((reply : Option Any) (e : Err)
            → o.retry_on (some e) ≡ true
            → eq_ℤ (pos attempt) o.max_attempts ≡ false
            → (w' : W)
            → IsRun (
                attempts P recorded o left
                  (suc attempt)
                  (some e)
                  (w', returned reply (some e) ∷ h)))
        → IsRun (attempts P recorded o (suc left) attempt last (w, h))
    unfolding attempts
    round-IsRun left attempt last w h n a b go = elim (Option-cases (env.ctx_err w)) [
      | inr (e, s) ↦ rw (s, attempts) (record { ended = stopped e h w a s; bounded = ground arith })
      | inl on ↦
          rw (on, attempts)
            (answer-IsRun attempt (attempts P recorded o left (suc attempt)) (env.handler w).0
              (env.handler w).1 h n a b go)
    ]

    attempts-IsRun :
        (left attempt : ℕ) (last : Option Err) (w : W) (h : History)
        → attempt ≡ suc (length h)
        → All IsRetried h
        → pos (attempt + left) ≡ o.max_attempts
        → IsRun (attempts P recorded o (suc left) attempt last (w, h))
    attempts-IsRun zero attempt last w h n a m =
        round-IsRun zero attempt last w h n a (ground arith)
          (λ reply e again room w'. absurd (ground arith))
    attempts-IsRun (suc left) attempt last w h n a m =
        round-IsRun (suc left) attempt last w h n a (ground arith) (λ reply e again room w'.
          attempts-IsRun left (suc attempt) (some e) w' (returned reply (some e) ∷ h) (ap suc n)
            (again, a) (ground arith))

    -- With at least two attempts allowed a call makes at most `max_attempts` calls of the handler,
    -- goes on only after errors that the predicate accepts, and ends in one of the ways of `IsEnd`:
    -- with the newest answer (its reply kept only where its error is nil), with the context's error,
    -- or with a panic of the handler or of the backoff. There is no other way out of the loop.
    pub client-IsRun : (w : W) → pos 2 ≤ℤ o.max_attempts → IsRun (client P recorded o (w, []))
    unfolding client
    client-IsRun w h =
        let more : leb_ℤ o.max_attempts (pos 1) ≡ false = ground arith in
        let count : pos_part o.max_attempts ≡ suc (pos_part o.max_attempts - 1) = omega arith in
        rw (more, count)
          (attempts-IsRun (pos_part o.max_attempts - 1) 1 none w [] refl tt
            (max_pos o.max_attempts h))
