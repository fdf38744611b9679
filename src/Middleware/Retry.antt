-- ===== src/Middleware/Retry.antt =====
-- pkg/middleware/retry/retry.go. A duration is an int64 number of nanoseconds, as an integer `ℤ`.
-- What the code meets at run time (the handler, the context's error, the timer against
-- `ctx.Done()`, the random draw) is a function of the state `W` of the world.
pub mod Backoff
pub mod Attempts
pub mod Invariant
pub mod Predicate
pub mod Recovery
mod Tests
use go_infrastructure.Prelude.{
  ℕ, zero, suc, ◌+◌, ◌-◌, ◌^◌, ◌%◌, Bool, true, false, Option, none, some, List, [], ◌∷◌, ℤ, pos,
  ◌+ℤ◌, ◌-ℤ◌, ◌*ℤ◌, ◌/ℤ◌, ltb_ℤ, leb_ℤ, pos_part, wrap64, eq_ℤ, ◌==◌, leb, ◌||◌, if◌then◌else◌,
}
use go_infrastructure.Kratos.Defs.{Platform}
use go_infrastructure.Middleware.Handler.{Outcome, returned, panicked}

abbrev pub default_max_attempts : ℤ
default_max_attempts = pos 3

abbrev pub default_initial_backoff : ℤ
default_initial_backoff = pos 100_000_000

abbrev pub default_max_backoff : ℤ
default_max_backoff = pos 2_000_000_000

-- `rand.Int63n(n)` at a draw of the generator: it panics (`none`) unless 0 < n.
abbrev pub int63n : ℤ → ℕ → Option ℤ
int63n n draw = if leb_ℤ n (pos 0) then none else some (pos (draw % pos_part n))

-- `initial << (attempt - 1)`, capped: a shift that left int64 shows as a number <= 0 or over the cap.
abbrev pub capped : ℤ → ℤ → ℤ
capped d cap = if leb_ℤ d (pos 0) || ltb_ℤ cap d then cap else d

pub base_backoff : ℕ → ℤ → ℤ → ℤ
base_backoff attempt initial cap = capped (wrap64 (initial *ℤ pos (2 ^ (attempt - 1)))) cap

-- `d - d/4 + jitter`, capped; `none` is a panic.
pub jittered : ℤ → ℤ → ℕ → Option ℤ
jittered d cap draw = elim (int63n (d /ℤ pos 2) draw) [
  | none ↦ none
  | some jitter ↦
      let d' = wrap64 (wrap64 (d -ℤ d /ℤ pos 4) +ℤ jitter) in
      some (if ltb_ℤ cap d' then cap else d')
]

pub backoff_for : ℕ → ℤ → ℤ → ℕ → Option ℤ
unfolding base_backoff jittered
backoff_for attempt initial cap draw = jittered (base_backoff attempt initial cap) cap draw

module _ (P : Platform) where
  open P use {
    Any, Err, as_kratos, code, is_canceled, is_deadline_exceeded, as_net_timeout, as_op_error,
  }

  retryable_code : ℕ → Bool
  retryable_code c = c == 503 || (c == 504 || c == 429)

  abbrev timed_out : Option Bool → Bool
  timed_out none = false
  timed_out (some t) = t

  busy : Err → Bool
  unfolding retryable_code
  busy err = elim (as_kratos err) [ some ke ↦ retryable_code (code ke) | none ↦ false ]

  pub default_retry_on : Option Err → Bool
  unfolding busy
  default_retry_on none = false
  default_retry_on (some err) =
      if is_canceled err || is_deadline_exceeded err
      then false
      else if timed_out (as_net_timeout err)
      then true
      else if as_op_error err
      then true
      else busy err

  pub record Options : Type 0 where
    pub max_attempts : ℤ
    pub initial_backoff : ℤ
    pub max_backoff : ℤ
    pub retry_on : Option Err → Bool

  unfoldable pub with_max_attempts : ℤ → Options → Options
  with_max_attempts n o = record o { max_attempts = n }

  unfoldable pub with_initial_backoff : ℤ → Options → Options
  with_initial_backoff d o = record o { initial_backoff = d }

  unfoldable pub with_max_backoff : ℤ → Options → Options
  with_max_backoff d o = record o { max_backoff = d }

  pub with_retry_on : (Option Err → Bool) → Options → Options
  with_retry_on p o = record o { retry_on = p }

  abbrev pub defaults : Options
  defaults = record {
    max_attempts = default_max_attempts;
    initial_backoff = default_initial_backoff;
    max_backoff = default_max_backoff;
    retry_on = default_retry_on;
  }

  pub apply : List (Options → Options) → Options → Options
  apply [] o = o
  apply (opt ∷ opts) o = apply opts (opt o)

  -- The surroundings of one call: the wrapped handler at its context and request, `ctx.Err()`, the
  -- next draw, whether a timer of a given length fires before `ctx.Done()`, and the value that
  -- `rand.Int63n` panics with.
  pub record Env (W : Type 0) : Type 0 where
    pub handler : W → Outcome P × W
    pub ctx_err : W → Option Err
    pub draw : W → ℕ × W
    pub timer_fires : ℤ → W → Bool × W
    pub int63n_panic : Any

  module _ {W : Type 0} (env : Env W) where
    open env use {handler, ctx_err, draw, timer_fires, int63n_panic}

    -- A clean timer fire, or `ctx.Err()` after a cancellation.
    pub sleep_with_ctx : ℤ → W → Option Err × W
    sleep_with_ctx d w =
        let (fired, w') = timer_fires d w in
        if leb_ℤ d (pos 0) then (none, w) else if fired then (none, w') else (ctx_err w', w')

    -- The round after a failed attempt that is to be repeated: the sleep, then `next`.
    pause : Options → ℕ → (W → Outcome P × W) → W → Outcome P × W
    pause o attempt next w =
        let (r, w1) = draw w in
        elim (backoff_for attempt o.initial_backoff o.max_backoff r) [
          | none ↦ (panicked int63n_panic, w1)
          | some d ↦
              let (stopped, w2) = sleep_with_ctx d w1 in
              elim stopped [ some e ↦ (returned none (some e), w2) | none ↦ next w2 ]
        ]

    -- What follows the handler's answer.
    answer : Options → ℕ → (Option Err → W → Outcome P × W) → Outcome P × W → Outcome P × W
    answer o attempt next (returned reply none, w) = (returned reply none, w)
    answer o attempt next (returned reply (some e), w) =
        if o.retry_on (some e)
        then (if eq_ℤ (pos attempt) o.max_attempts
            then (returned none (some e), w)
            else pause o attempt (next (some e)) w)
        else (returned none (some e), w)
    answer o attempt next (panicked v, w) = (panicked v, w)
    answer o attempt next (Outcome.crashed, w) = (Outcome.crashed, w)

    -- The loop at the counter `attempt`, with so many rounds left before it passes `maxAttempts`.
    pub attempts : Options → (left : ℕ) → (attempt : ℕ) → Option Err → W → Outcome P × W
    attempts o zero attempt last w = (returned none last, w)
    attempts o (suc left) attempt last w =
        let next = attempts o left (suc attempt) in
        elim (ctx_err w) [
          | some e ↦ (returned none (some e), w)
          | none ↦ answer o attempt next (handler w)
        ]

    unfoldable pub client : Options → W → Outcome P × W
    unfolding attempts answer pause sleep_with_ctx backoff_for default_retry_on
    client o w =
        if leb_ℤ o.max_attempts (pos 1)
        then handler w
        else attempts o (pos_part o.max_attempts) 1 none w

    -- `Client` with its options, at the handler, context and request of `env`.
    pub client_with : List (Options → Options) → W → Outcome P × W
    unfolding apply
    client_with opts w = client (apply opts defaults) w
