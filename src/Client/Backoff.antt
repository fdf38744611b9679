-- ===== src/Client/Backoff.antt =====
-- The retry policy of a client at work: which sleeps it leads to.
use go_infrastructure.Prelude.{
  ℕ, zero, suc, ◌^◌, ◌≤◌, ◌<◌, ◌≡◌, ◌≢◌, refl, arith, Bool-cases, inl, inr, some, ℤ, pos, negsuc,
  ltb_ℤ, ◌<ℤ◌, if◌then◌else◌,
}
use go_infrastructure.Kratos.Defs.{Platform}
use go_infrastructure.Middleware.Retry
use go_infrastructure.Middleware.Retry.Backoff.{backoff_for_bounds}
use go_infrastructure.Client.{RetryConfig, retry_options}

-- A positive setting is taken, and any other leaves the default.
abbrev pub set_or : ℤ → ℤ → ℤ
set_or z default = if ltb_ℤ (pos 0) z then z else default

set_or_bounds :
    (z : ℤ) (default bound : ℕ)
    → z ≢ pos 1
    → z <ℤ pos bound
    → 2 ≤ default
    → default < bound
    → (n : ℕ) × (set_or z (pos default) ≡ pos n) × (2 ≤ n) × (n < bound)
set_or_bounds (pos zero) default bound one b t d = (default, refl, t, d)
set_or_bounds (pos (suc zero)) default bound one b t d = absurd (one refl)
set_or_bounds (pos (suc (suc n))) default bound one b t d =
    (suc (suc n), ground arith, omega arith, omega arith)
set_or_bounds (negsuc n) default bound one b t d = (default, ground arith, t, d)

module _ (P : Platform) where
  initial_lem :
      (r : RetryConfig)
      → (retry_options P r).initial_backoff ≡ set_or r.initial_backoff Retry.default_initial_backoff
  unfolding retry_options Retry.with_max_attempts Retry.with_max_backoff Retry.with_initial_backoff
  initial_lem r = elim (Bool-cases (ltb_ℤ (pos 0) r.max_backoff)) [
    | inl e ↦ elim (Bool-cases (ltb_ℤ (pos 0) r.initial_backoff)) [
      | inl e' ↦ rw (e, e')
      | inr f' ↦ rw (e, f')
    ]
    | inr f ↦ elim (Bool-cases (ltb_ℤ (pos 0) r.initial_backoff)) [
      | inl e' ↦ rw (f, e')
      | inr f' ↦ rw (f, f')
    ]
  ]

  max_lem :
      (r : RetryConfig)
      → (retry_options P r).max_backoff ≡ set_or r.max_backoff Retry.default_max_backoff
  unfolding retry_options Retry.with_max_attempts Retry.with_max_backoff Retry.with_initial_backoff
  max_lem r = elim (Bool-cases (ltb_ℤ (pos 0) r.max_backoff)) [
    | inl e ↦ rw e
    | inr f ↦ elim (Bool-cases (ltb_ℤ (pos 0) r.initial_backoff)) [
      | inl e' ↦ rw (f, e')
      | inr f' ↦ rw (f, f')
    ]
  ]

  -- Under every retry policy of a client, settings that are zero or negative included, each sleep
  -- between attempts is at least 1 ns and at most the cap, which is the policy's where that is
  -- positive and else the default: the computation never panics. Excluded are backoffs of exactly
  -- 1 ns, initial backoffs from 2 ^ 63 ns and caps from 2 ^ 62 ns.
  pub retry_options-backoff_for :
      (r : RetryConfig) (attempt draw : ℕ)
      → r.initial_backoff ≢ pos 1
      → r.initial_backoff <ℤ pos (2 ^ 63)
      → r.max_backoff ≢ pos 1
      → r.max_backoff <ℤ pos (2 ^ 62)
      → (d c : ℕ) × (Retry.backoff_for attempt
            (retry_options P r).initial_backoff
            (retry_options P r).max_backoff
            draw
          ≡ some (pos d))
        × (set_or r.max_backoff Retry.default_max_backoff ≡ pos c)
        × (1 ≤ d)
        × (d ≤ c)
  retry_options-backoff_for r attempt draw i1 ib c1 cb =
      let (i, ie, i2, ilt) =
        set_or_bounds r.initial_backoff 100_000_000 (2 ^ 63) i1 ib (omega arith) (omega arith) in
      let (c, ce, c2, clt) =
        set_or_bounds r.max_backoff 2_000_000_000 (2 ^ 62) c1 cb (omega arith) (omega arith) in
      let (d, e, lo, hi) = backoff_for_bounds attempt i c draw i2 ilt c2 clt in
      (d, c, rw (initial_lem r, ie, max_lem r, ce) e, ce, lo, hi)
