-- ===== src/Client/Outbound/Attempts.antt =====
-- What the transport of a client sees of one call.
use go_infrastructure.Prelude.{
  ℕ, ◌≤◌, ◌≡◌, refl, ap, ◌∙◌, arith, Bool, true, false, Bool-cases, inl, inr, Option, none, some,
  List, [], ◌∷◌, ◌++◌, pos, GoString, ◌&&◌, is_empty, lookup-insert, eq_str_refl, ltb_ℤ, leb_ℤ,
  pos_part, if◌then◌else◌,
}
use go_infrastructure.Kratos.Defs.{Platform}
use go_infrastructure.Middleware.Handler.{Context, Transport, Handler}
use go_infrastructure.Middleware.World.{World}
use go_infrastructure.Middleware.Logid
use go_infrastructure.Middleware.Logid.{metadata_key, from_context}
use go_infrastructure.Middleware.Retry
use go_infrastructure.Middleware.Retry.Invariant.{least_one}
use go_infrastructure.Client.{RetryConfig, breaker, retry, layers, retry_options}
use go_infrastructure.Client.Outbound.Sent.{
  times, Sent, Sends, SentWithin, send-Sends, break-Sends, retry-Sends, forwards,
}
use go_infrastructure.Client.Outbound.{Outside, through, outbound}

-- How many attempts a retry policy allows.
abbrev pub allowed : RetryConfig → ℕ
allowed r = if ltb_ℤ (pos 1) r.max_attempts then pos_part r.max_attempts else 1

module _ (P : Platform) {R : Type 0} (O : Outside P R) (no_breaker : Bool) (id : GoString)
    (before : List (Option GoString)) where
  open P use {Any}
  open O use {calls}

  max_attempts_lem : (r : RetryConfig) → (retry_options P r).max_attempts ≡ r.max_attempts
  unfolding retry_options Retry.with_max_attempts Retry.with_initial_backoff Retry.with_max_backoff
  max_attempts_lem r = elim (Bool-cases (ltb_ℤ (pos 0) r.max_backoff)) [
    | inl e ↦ elim (Bool-cases (ltb_ℤ (pos 0) r.initial_backoff)) [
      | inl e' ↦ rw (e, e')
      | inr f' ↦ rw (e, f')
    ]
    | inr f ↦ elim (Bool-cases (ltb_ℤ (pos 0) r.initial_backoff)) [
      | inl e' ↦ rw (f, e')
      | inr f' ↦ rw (f, f')
    ]
  ]

  limit-allowed :
      (r : RetryConfig)
      → ltb_ℤ (pos 1) r.max_attempts ≡ true
      → (if leb_ℤ (retry_options P r).max_attempts (pos 1)
          then 1
          else pos_part (retry_options P r).max_attempts)
        ≡ pos_part r.max_attempts
  limit-allowed r e = rw (max_attempts_lem r) (ground arith)

  -- The layers behind the trace id.
  abbrev behind : RetryConfig → Handler P (World R)
  behind r = through P O (
      (if ltb_ℤ (pos 1) r.max_attempts then retry (retry_options P r) ∷ [] else [])
      ++ (if no_breaker then [] else breaker ∷ []))

  abbrev last : Bool → Handler P (World R)
  last b = through P O (if b then [] else breaker ∷ [])

  last-Sends : (b : Bool) → no_breaker ≡ b → Sends P O no_breaker id before (last b)
  last-Sends true e = send-Sends P O no_breaker id before
  last-Sends false e =
      break-Sends P O no_breaker id before O.send e (send-Sends P O no_breaker id before)

  module _ (r : RetryConfig) (alive : Bool) (ctx : Context Any)
      (live : alive ≡ true → (v : World R) → O.ctx_err ctx v ≡ none) (req : Any) where
    behind-Sent :
        (w : World R)
        → Sent P O no_breaker id before 0 w
        → SentWithin P O no_breaker id before
            (if alive then 1 else 0)
            (allowed r)
            (behind r ctx req w).1
    unfolding Sends
    behind-Sent w s = elim (Bool-cases (ltb_ℤ (pos 1) r.max_attempts)) [
      | inl e ↦
          let most =
            retry-Sends P O no_breaker id before alive ctx live req (last no_breaker)
              (retry_options P r) w (last-Sends no_breaker refl) s in
          rw e (rw (limit-allowed r e) at most)
      | inr e ↦ rw e (1, least_one alive, omega arith, last-Sends no_breaker refl 0 ctx req w s)
    ]

    -- The call behind recovery and tracing.
    logged-Sent :
        (w : World R) (tr : Transport)
        → ctx.client ≡ some tr
        → from_context P ctx ≡ id
        → is_empty id ≡ false
        → calls w.rest ≡ before
        → SentWithin P O no_breaker id before
            (if alive then 1 else 0)
            (allowed r)
            (Logid.client P (behind r) ctx req w).1
    logged-Sent w tr c i n b = rw (forwards P (behind r) ctx req w tr c (rw i n)) (
        behind-Sent _ (record {
          header =
              lookup-insert metadata_key metadata_key (from_context P ctx) w.request_header
              ∙ rw (eq_str_refl metadata_key) (ap some i);
          count = 0;
          at_most = omega arith;
          at_least = λ e. omega arith;
          sent = b;
        }))

-- The two lower bounds.
least_of :
    (no_breaker alive : Bool) (n count : ℕ)
    → (if alive then 1 else 0) ≤ n
    → (no_breaker ≡ true → n ≤ count)
    → (if no_breaker && alive then 1 else 0) ≤ count
least_of true alive n count le at = omega (arith, at refl)
least_of false alive n count le at = omega arith

module _ (P : Platform) {R : Type 0} (O : Outside P R) where
  -- A call of a client, over a context with a client transport and a trace id that is not empty in
  -- the context of its span, makes at most as many requests as the retry policy allows, which is one
  -- where the policy does not repeat, and at least one where there is no breaker and the context
  -- stays alive; each of them has the trace id in its header.
  pub outbound-times :
      (r : RetryConfig) (no_breaker alive : Bool) (ctx : Context P.Any) (req : P.Any) (w : World R)
      (tr : Transport) (id : GoString)
      → ctx.client ≡ some tr
      → from_context P (record ctx { span = O.span_for ctx }) ≡ id
      → is_empty id ≡ false
      → (alive ≡ true → (v : World R) → O.ctx_err (record ctx { span = O.span_for ctx }) v ≡ none)
      → (n : ℕ) × (n ≤ allowed r)
        × ((if no_breaker && alive then 1 else 0) ≤ n)
        × (O.calls (outbound P O r no_breaker ctx req w).1.rest
            ≡ times n (some id) (O.calls w.rest))
  unfolding outbound layers
  outbound-times r nb alive ctx req w tr id c i n live =
      let spanned = record ctx { span = O.span_for ctx } in
      let (m, lo, hi, s) =
        logged-Sent P O nb id (O.calls w.rest) r alive spanned live req (O.inject ctx w) tr c i n
          (O.inject_lem ctx w) in
      (
        s.count,
        omega (arith, s.at_most),
        least_of nb alive m s.count lo s.at_least,
        rw (O.recover_lem _ ctx req w, O.trace_lem _ ctx req w) (s.sent),
      )
