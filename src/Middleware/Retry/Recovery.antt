-- ===== src/Middleware/Retry/Recovery.antt =====
-- Retries against a server that recovers.
use go_infrastructure.Prelude.{
  ℕ, zero, suc, ◌+◌, ◌^◌, ◌≤◌, ◌<◌, ◌≡◌, refl, ap, ◌∙◌, arith, true, false, Option, none, some, pos,
  leb_ℤ, eq_ℤ, pos_part,
}
use go_infrastructure.Kratos.Defs.{Platform}
use go_infrastructure.Middleware.Handler.{Outcome, returned}
use go_infrastructure.Middleware.Retry.{
  Options, Env, sleep_with_ctx, pause, answer, attempts, client, backoff_for,
}
use go_infrastructure.Middleware.Retry.Backoff.{backoff_for_bounds}

module _ (P : Platform) {W : Type 0} (env : Env P W) (o : Options P) where
  open P use {Any, Err}
  open env use {handler, ctx_err, draw, timer_fires}

  -- A server with `fails w` answers left that are to be retried before it succeeds, under a context
  -- that stays alive and timers that fire; only the handler changes that number.
  pub record Recovers (fails : W → ℕ) : Type 0 where
    pub alive : (w : W) → ctx_err w ≡ none
    pub fires : (d : ℕ) (w : W) → (timer_fires (pos d) w).0 ≡ true
    pub fails-timer : (d : ℕ) (w : W) → fails (timer_fires (pos d) w).1 ≡ fails w
    pub fails-draw : (w : W) → fails (draw w).1 ≡ fails w
    pub succeeds :
        (w : W)
        → fails w ≡ 0
        → (reply : Option Any) × (w' : W) × (handler w ≡ (returned reply none, w'))
    pub retried :
        (w : W) (n : ℕ)
        → fails w ≡ suc n
        → (reply : Option Any) × (e : Err) × (w' : W) × (handler w ≡ (returned reply (some e), w'))
          × (o.retry_on (some e) ≡ true)
          × (fails w' ≡ n)

  module _ (fails : W → ℕ) (good : Recovers fails) (i c : ℕ) where
    sleep-fires :
        (d : ℕ) (w : W) → 1 ≤ d → sleep_with_ctx P env (pos d) w ≡ (none, (timer_fires (pos d) w).1)
    unfolding sleep_with_ctx
    sleep-fires d w h =
        let positive : leb_ℤ (pos d) (pos 0) ≡ false = ground arith in rw (positive, good.fires d w)

    bounded_backoff :
        (attempt : ℕ) (w : W)
        → 2 ≤ i
        → i < 2 ^ 63
        → 2 ≤ c
        → c < 2 ^ 62
        → o.initial_backoff ≡ pos i
        → o.max_backoff ≡ pos c
        → (d : ℕ) × (backoff_for attempt o.initial_backoff o.max_backoff (draw w).0 ≡ some (pos d))
          × (1 ≤ d)
    bounded_backoff attempt w a b f g ei ec =
        let (d, s, one, cap) = backoff_for_bounds attempt i c (draw w).0 a b f g in
        (
          d,
          ap (λ x. backoff_for attempt x o.max_backoff (draw w).0) ei
              ∙ ap (λ x. backoff_for attempt (pos i) x (draw w).0) ec
              ∙ s,
          one,
        )

    -- A pause of a positive length goes on, and leaves the number of answers that fail.
    pause-next :
        (attempt d : ℕ) (next : W → Outcome P × W) (w : W)
        → backoff_for attempt o.initial_backoff o.max_backoff (draw w).0 ≡ some (pos d)
        → 1 ≤ d
        → (w' : W) × (pause P env o attempt next w ≡ next w') × (fails w' ≡ fails w)
    unfolding pause
    pause-next attempt d next w s one = (
      (timer_fires (pos d) (draw w).1).1,
      rw (s, pause, sleep-fires d (draw w).1 one)
          (ap (λ (p : Option Err × W). next p.1) (sleep-fires d (draw w).1 one)),
      good.fails-timer d (draw w).1 ∙ good.fails-draw w,
    )

    answer-retried :
        (attempt d : ℕ) (next : Option Err → W → Outcome P × W) (reply : Option Any) (e : Err)
        (w : W)
        → o.retry_on (some e) ≡ true
        → eq_ℤ (pos attempt) o.max_attempts ≡ false
        → backoff_for attempt o.initial_backoff o.max_backoff (draw w).0 ≡ some (pos d)
        → 1 ≤ d
        → (w' : W) × (answer P env o attempt next (returned reply (some e), w) ≡ next (some e) w')
          × (fails w' ≡ fails w)
    unfolding answer
    answer-retried attempt d next reply e w again room s one =
        let (w', n, f) = pause-next attempt d (next (some e)) w s one in (w', rw (again, room) n, f)

    attempts-succeeds :
        (left attempt : ℕ) (last : Option Err) (w : W)
        → 2 ≤ i
        → i < 2 ^ 63
        → 2 ≤ c
        → c < 2 ^ 62
        → o.initial_backoff ≡ pos i
        → o.max_backoff ≡ pos c
        → pos (attempt + left) ≡ o.max_attempts
        → (n : ℕ) → fails w ≡ n
        → n ≤ left
        → (w0 : W) × (fails w0 ≡ 0) × (attempts P env o (suc left) attempt last w ≡ handler w0)
    unfolding attempts answer
    attempts-succeeds left attempt last w a b f g ei ec m zero e k =
        let (reply, w', h) = good.succeeds w e in (w, e, rw (good.alive w, attempts, h, answer))
    attempts-succeeds zero attempt last w a b f g ei ec m (suc n) e k = absurd (ground arith)
    attempts-succeeds (suc left) attempt last w a b f g ei ec m (suc n) e k =
        let (reply, err, w1, h, again, left_fails) = good.retried w n e in
        let (d, s, one) = bounded_backoff attempt w1 a b f g ei ec in
        let room : eq_ℤ (pos attempt) o.max_attempts ≡ false = ground arith in
        let (w2, next, same) =
          answer-retried attempt d (attempts P env o (suc left) (suc attempt)) reply err w1 again
            room s one in
        let (w0, none_left, run) =
          attempts-succeeds left (suc attempt) (some err) w2 a b f g ei ec (ground arith) n
            (same ∙ left_fails) (omega arith) in
        (w0, none_left, rw (good.alive w, attempts, h) (next ∙ run))

    client-reaches :
        (w : W) (m : ℕ)
        → 2 ≤ i
        → i < 2 ^ 63
        → 2 ≤ c
        → c < 2 ^ 62
        → o.initial_backoff ≡ pos i
        → o.max_backoff ≡ pos c
        → o.max_attempts ≡ pos m
        → fails w < m
        → (w0 : W) × (fails w0 ≡ 0) × (client P env o w ≡ handler w0)
    unfolding client
    client-reaches w zero a b f g ei ec em k = absurd (omega arith)
    client-reaches w (suc zero) a b f g ei ec em k =
        let once : leb_ℤ o.max_attempts (pos 1) ≡ true = ground arith in (w, omega arith, rw once)
    client-reaches w (suc (suc n)) a b f g ei ec em k =
        let more : leb_ℤ o.max_attempts (pos 1) ≡ false = ground arith in
        let count : pos_part o.max_attempts ≡ suc (suc n) = ground arith in
        rw (more, count)
          (attempts-succeeds (suc n) 1 none w a b f g ei ec (ground arith) (fails w) refl
            (omega arith))

    -- A call with enough attempts succeeds: where fewer answers of the server are left that are to
    -- be retried than attempts are allowed, the context stays alive and timers fire, the call gives
    -- what the handler answers once it succeeds, under every initial backoff from 2 ns to below 2^63 ns
    -- and every cap from 2 ns to below 2^62 ns.
    pub client-succeeds :
        (w : W) (m : ℕ)
        → 2 ≤ i
        → i < 2 ^ 63
        → 2 ≤ c
        → c < 2 ^ 62
        → o.initial_backoff ≡ pos i
        → o.max_backoff ≡ pos c
        → o.max_attempts ≡ pos m
        → fails w < m
        → (w0 : W) × (reply : Option Any) × (w' : W) × (fails w0 ≡ 0)
          × (client P env o w ≡ handler w0)
          × (handler w0 ≡ (returned reply none, w'))
    client-succeeds w m a b f g ei ec em k =
        let (w0, none_left, run) = client-reaches w m a b f g ei ec em k in
        let (reply, w', h) = good.succeeds w0 none_left in (w0, reply, w', none_left, run, h)
