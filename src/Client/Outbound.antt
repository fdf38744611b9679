-- ===== src/Client/Outbound.antt =====
-- pkg/client/grpc.go and http.go: a call through the middlewares of a client. Those of kratos, the
-- surroundings of retry and the transport behind them are a parameter.
pub mod Sent
pub mod Attempts
mod Tests
use go_infrastructure.Prelude.{
  ℕ, zero, suc, ◌≤◌, ◌≡◌, refl, ap, ◌∙◌, arith, Bool, true, false, Bool-cases, inl, inr, Option,
  none, some, List, [], ◌∷◌, ◌++◌, ℤ, pos, GoString, is_empty, lookup, insert, lookup-insert,
  eq_str_refl, ltb_ℤ, leb_ℤ, pos_part, if◌then◌else◌,
}
use go_infrastructure.Kratos.Defs.{Platform}
use go_infrastructure.Middleware.Handler.{
  Context, Transport, Outcome, returned, Handler, Middleware,
}
use go_infrastructure.Middleware.World.{World}
use go_infrastructure.Middleware.Logid
use go_infrastructure.Middleware.Logid.{metadata_key, from_context}
use go_infrastructure.Middleware.Retry
use go_infrastructure.Middleware.Retry.{Env}
use go_infrastructure.Middleware.Retry.Invariant.{Within, client-Within}
use go_infrastructure.Client.{RetryConfig, Layer, recovery, tracing, logid, breaker, retry, layers}

-- Kratos' own middlewares with what is documented of them: recovery turns a panic into an error;
-- tracing runs the call in a context with its span, which it writes to the request; the breaker
-- refuses a call or lets it pass and notes how it ended. `calls` are the trace ids of the requests
-- that the transport has sent, the newest first; only the transport adds to it.
pub record Outside (P : Platform) (R : Type 0) : Type 0 where
  pub calls : R → List (Option GoString)
  pub send : Handler P (World R)
  pub send_lem :
      (ctx : Context P.Any) (req : P.Any) (w : World R)
      → ((send ctx req w).1.request_header ≡ w.request_header)
        × (calls (send ctx req w).1.rest ≡ lookup metadata_key w.request_header ∷ calls w.rest)
  pub recover : Middleware P (World R)
  pub recover_lem :
      (h : Handler P (World R)) (ctx : Context P.Any) (req : P.Any) (w : World R)
      → (recover h ctx req w).1 ≡ (h ctx req w).1
  pub span_for : Context P.Any → Option GoString
  pub inject : Context P.Any → World R → World R
  pub inject_lem : (ctx : Context P.Any) (w : World R) → calls (inject ctx w).rest ≡ calls w.rest
  pub trace : Middleware P (World R)
  pub trace_lem :
      (h : Handler P (World R)) (ctx : Context P.Any) (req : P.Any) (w : World R)
      → trace h ctx req w ≡ h (record ctx { span = span_for ctx }) req (inject ctx w)
  pub admits : Context P.Any → World R → Bool
  pub not_allowed : P.Err
  pub mark : Option (Outcome P) → World R → World R
  pub mark_lem :
      (out : Option (Outcome P)) (w : World R)
      → ((mark out w).request_header ≡ w.request_header) × (calls (mark out w).rest ≡ calls w.rest)
  pub break : Middleware P (World R)
  pub break_lem :
      (h : Handler P (World R)) (ctx : Context P.Any) (req : P.Any) (w : World R)
      → break h ctx req w ≡ (
          if admits ctx w
          then ((h ctx req w).0, mark (some (h ctx req w).0) (h ctx req w).1)
          else (returned none (some not_allowed), mark none w))
  pub ctx_err : Context P.Any → World R → Option P.Err
  pub draw : World R → ℕ × World R
  pub draw_lem :
      (w : World R)
      → ((draw w).1.request_header ≡ w.request_header) × (calls (draw w).1.rest ≡ calls w.rest)
  pub timer_fires : Context P.Any → ℤ → World R → Bool × World R
  pub timer_fires_lem :
      (ctx : Context P.Any) (d : ℤ) (w : World R)
      → ((timer_fires ctx d w).1.request_header ≡ w.request_header)
        × (calls (timer_fires ctx d w).1.rest ≡ calls w.rest)
  pub int63n_panic : P.Any

module _ (P : Platform) {R : Type 0} (O : Outside P R) where
  open P use {Any}
  open O use {calls, send}

  abbrev surroundings : Handler P (World R) → Context Any → Any → Env P (World R)
  surroundings h ctx req = record {
    handler = h ctx req;
    ctx_err = O.ctx_err ctx;
    draw = O.draw;
    timer_fires = O.timer_fires ctx;
    int63n_panic = O.int63n_panic;
  }

  -- The middleware of a layer.
  abbrev layer_mw : Layer P → Middleware P (World R)
  layer_mw recovery = O.recover
  layer_mw tracing = O.trace
  layer_mw logid = Logid.client P
  layer_mw breaker = O.break
  layer_mw (retry o) = λ h ctx req w. Retry.client P (surroundings h ctx req) o w

  -- `middleware.Chain` of the layers, around the transport.
  abbrev through : List (Layer P) → Handler P (World R)
  through [] = send
  through (l ∷ ls) = layer_mw l (through ls)

  -- A call of a client with the retry policy and `NoCircuitBreaker`.
  unfoldable pub outbound : RetryConfig → Bool → Handler P (World R)
  unfolding layers
  outbound r no_breaker = through (layers P r no_breaker)
