-- ===== src/Middleware/Retry/Predicate.antt =====
-- Which errors the built-in predicate retries.
use go_infrastructure.Prelude.{
  ◌≡◌, ◌⊎◌, ◌↔◌, refl, arith, true, false, some, Option-cases, inl, inr,
}
use go_infrastructure.Kratos.Defs.{Platform}
use go_infrastructure.Middleware.Retry.{busy, default_retry_on}

module _ (P : Platform) where
  open P use {
    Err, KratosError, as_kratos, code, is_canceled, is_deadline_exceeded, as_net_timeout,
    as_op_error, deadline_exceeded, canceled, is_canceled-canceled, is_deadline_exceeded_self,
  }

  abbrev pub IsBusy : Err → Type 0
  IsBusy e =
      (k : KratosError) × (as_kratos e ≡ some k)
      × ((code k ≡ 503) ⊎ (code k ≡ 504) ⊎ (code k ≡ 429))

  abbrev pub IsTransient : Err → Type 0
  IsTransient e = (as_net_timeout e ≡ some true) ⊎ (as_op_error e ≡ true) ⊎ IsBusy e

  busy_iff : (e : Err) → (busy P e ≡ true) ↔ IsBusy e
  unfolding busy
  busy_iff e = elim (Option-cases (as_kratos e)) [
    | inl n ↦ rw (n, busy) (λ h. cc, λ h. cc)
    | inr (k, s) ↦ rw (s, busy) (λ h. (k, refl, ground arith), λ h. ground arith)
  ]

  -- An error is retried exactly when it is neither a cancellation nor a passed deadline, and is a
  -- network timeout, an operation error of the network, or a kratos error of code 503, 504 or 429.
  pub default_retry_on_iff :
      (e : Err)
      → (default_retry_on P (some e) ≡ true)
        ↔ ((is_canceled e ≡ false) × (is_deadline_exceeded e ≡ false) × IsTransient e)
  unfolding default_retry_on
  default_retry_on_iff e = ground (arith, busy_iff e)
