-- ===== src/Middleware/Retry/Invariant.antt =====
-- What the retry loop keeps, where each call of the handler counts.
use go_infrastructure.Prelude.{
  ℕ, zero, suc, ◌+◌, ◌≤◌, ◌≡◌, refl, arith, Bool, true, false, Bool-cases, inl, inr, Option, none,
  some, Option-cases, ℤ, pos, leb_ℤ, eq_ℤ, pos_part, if◌then◌else◌,
}
use go_infrastructure.Kratos.Defs.{Platform}
use go_infrastructure.Middleware.Handler.{Outcome, returned, panicked, crashed}
use go_infrastructure.Middleware.Retry.{
  Options, Env, backoff_for, sleep_with_ctx, pause, answer, attempts, client,
}

pub least_one : (alive : Bool) → (if alive then 1 else 0) ≤ 1
least_one true = omega arith
least_one false = omega arith

module _ (P : Platform) {W : Type 0} (env : Env P W) (Inv : ℕ → W → Type 0)
    (handler-Inv : (n : ℕ) (w : W) → Inv n w → Inv (suc n) (env.handler w).1)
    (draw-Inv : (n : ℕ) (w : W) → Inv n w → Inv n (env.draw w).1)
    (timer-Inv : (n : ℕ) (d : ℤ) (w : W) → Inv n w → Inv n (env.timer_fires d w).1)
    (o : Options P) where
  open P use {Err}

  -- A state in which the handler has been called at least `least` and at most `bound` times.
  abbrev pub Within : ℕ → ℕ → W → Type 0
  Within least bound w = (n : ℕ) × (least ≤ n) × (n ≤ bound) × Inv n w

  sleep-Inv : (n : ℕ) (d : ℤ) (w : W) → Inv n w → Inv n (sleep_with_ctx P env d w).1
  unfolding sleep_with_ctx
  sleep-Inv n d w h = elim (Bool-cases (leb_ℤ d (pos 0))) [
    | inl e ↦ rw (sleep_with_ctx, e) h
    | inr e ↦ elim (Bool-cases (env.timer_fires d w).0) [
      | inl t ↦ rw (sleep_with_ctx, e, t) (timer-Inv n d w h)
      | inr t ↦ rw (sleep_with_ctx, e, t) (timer-Inv n d w h)
    ]
  ]

  pause-Within :
      (least bound n attempt : ℕ) (next : W → Outcome P × W) (w : W)
      → least ≤ n
      → n ≤ bound
      → Inv n w
      → ((w' : W) → Inv n w' → Within least bound (next w').1)
      → Within least bound (pause P env o attempt next w).1
  unfolding pause
  pause-Within least bound n attempt next w lo le h go =
      let (r, w1) = env.draw w in
      let drawn = draw-Inv n w h in
      elim (Option-cases (backoff_for attempt o.initial_backoff o.max_backoff r)) [
        | inl bad ↦ rw (pause, bad) (n, lo, le, drawn)
        | inr (d, s) ↦
            let slept = sleep-Inv n d w1 drawn in
            elim (Option-cases (sleep_with_ctx P env d w1).0) [
              | inl clean ↦ rw (pause, s, clean) (go (sleep_with_ctx P env d w1).1 slept)
              | inr (e, cut) ↦ rw (pause, s, cut) (n, lo, le, slept)
            ]
      ]

  answer-Within :
      (least bound n attempt : ℕ) (next : Option Err → W → Outcome P × W) (out : Outcome P) (w : W)
      → least ≤ n
      → n ≤ bound
      → Inv n w
      → ((last : Option Err) (w' : W) → Inv n w' → Within least bound (next last w').1)
      → Within least bound (answer P env o attempt next (out, w)).1
  unfolding answer
  answer-Within least bound n attempt next (returned reply none) w lo le h go = (n, lo, le, h)
  answer-Within least bound n attempt next (returned reply (some e)) w lo le h go =
      elim (Bool-cases (o.retry_on (some e))) [
        | inr no_more ↦ rw no_more (n, lo, le, h)
        | inl again ↦ elim (Bool-cases (eq_ℤ (pos attempt) o.max_attempts)) [
          | inl full ↦ rw (again, full) (n, lo, le, h)
          | inr room ↦
              rw (again, room)
                (pause-Within least bound n attempt (next (some e)) w lo le h (go (some e)))
        ]
      ]
  answer-Within least bound n attempt next (panicked v) w lo le h go = (n, lo, le, h)
  answer-Within least bound n attempt next crashed w lo le h go = (n, lo, le, h)

  attempts-Within :
      (least bound n left attempt : ℕ) (last : Option Err) (w : W)
      → least ≤ suc n
      → least ≤ n + left
      → ((e : Err) → env.ctx_err w ≡ some e → least ≤ n)
      → n + left ≤ bound
      → Inv n w
      → Within least bound (attempts P env o left attempt last w).1
  unfolding attempts
  attempts-Within least bound n zero attempt last w lo full stop le h =
      (n, omega arith, omega arith, h)
  attempts-Within least bound n (suc left) attempt last w lo full stop le h =
      elim (Option-cases (env.ctx_err w)) [
        | inr (e, s) ↦ rw (attempts, s) (n, stop e s, omega arith, h)
        | inl go_on ↦
            rw (attempts, go_on)
              (answer-Within least bound (suc n) attempt (attempts P env o left (suc attempt))
                (env.handler w).0 (env.handler w).1 lo (omega arith) (handler-Inv n w h)
                (λ last' w' h'.
                  attempts-Within least bound (suc n) left (suc attempt) last' w' (omega arith)
                    (omega arith) (λ e s. lo) (omega arith) h'))
      ]

  stopped_dead :
      (alive : Bool) (w : W)
      → (alive ≡ true → (v : W) → env.ctx_err v ≡ none)
      → (e : Err) → env.ctx_err w ≡ some e
      → (if alive then 1 else 0) ≤ 0
  stopped_dead true w live e s = absurd (cc (live refl w, s))
  stopped_dead false w live e s = omega arith

  -- From a state that the property holds of before any call, the client ends in one that it holds
  -- of after at most so many calls as the options allow, and one where they allow fewer; and after
  -- at least one where the context is alive.
  pub client-Within :
      (alive : Bool) (w : W)
      → (alive ≡ true → (v : W) → env.ctx_err v ≡ none)
      → Inv 0 w
      → Within
          (if alive then 1 else 0)
          (if leb_ℤ o.max_attempts (pos 1) then 1 else pos_part o.max_attempts)
          (client P env o w).1
  unfolding client
  client-Within alive w live h = elim (Bool-cases (leb_ℤ o.max_attempts (pos 1))) [
    | inl e ↦ rw (client, e) (1, least_one alive, omega arith, handler-Inv 0 w h)
    | inr e ↦
        rw (client, e)
          (attempts-Within (if alive then 1 else 0) (pos_part o.max_attempts) 0
            (pos_part o.max_attempts) 1 none w (least_one alive)
            (let one = least_one alive in ground arith) (stopped_dead alive w live) (omega arith) h)
  ]
