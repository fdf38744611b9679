-- ===== src/Client.antt =====
-- pkg/client: the middlewares of an outbound client, which grpc.go and http.go assemble alike.
pub mod Dial
pub mod Grpc
pub mod Http
pub mod Backoff
pub mod Outbound
mod Tests
use go_infrastructure.Prelude.{
  ℕ, Bool, true, false, List, [], ◌∷◌, ◌++◌, ℤ, pos, ltb_ℤ, if◌then◌else◌,
}
use go_infrastructure.Kratos.Defs.{Platform}
use go_infrastructure.Middleware.Retry

pub record RetryConfig : Type 0 where
  pub max_attempts : ℤ
  pub initial_backoff : ℤ
  pub max_backoff : ℤ

-- A client middleware by its package; those of kratos are `recovery`, `tracing` and `breaker`.
pub data Layer (P : Platform) : Type 0 where
  recovery tracing logid breaker : Layer P
  retry : Retry.Options P → Layer P

module _ (P : Platform) where
  -- The options that `retry.Client` gets, applied to its defaults.
  pub retry_options : RetryConfig → Retry.Options P
  unfolding Retry.with_max_attempts Retry.with_initial_backoff Retry.with_max_backoff
  retry_options r =
      let o1 = Retry.with_max_attempts P r.max_attempts (Retry.defaults P) in
      let o2 =
        if ltb_ℤ (pos 0) r.initial_backoff
        then Retry.with_initial_backoff P r.initial_backoff o1
        else o1 in
      if ltb_ℤ (pos 0) r.max_backoff then Retry.with_max_backoff P r.max_backoff o2 else o2

  -- `mws`: the outermost first, by the retry policy and `NoCircuitBreaker`.
  pub layers : RetryConfig → Bool → List (Layer P)
  unfolding retry_options
  layers r no_breaker =
      recovery
        ∷ tracing
        ∷ logid
        ∷ (if ltb_ℤ (pos 1) r.max_attempts then retry (retry_options r) ∷ [] else [])
      ++ (if no_breaker then [] else breaker ∷ [])
