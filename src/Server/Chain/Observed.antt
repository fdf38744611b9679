-- ===== src/Server/Chain/Observed.antt =====
-- What one request leaves behind under the default chain.
use go_infrastructure.Prelude.{◌-◌, ◌≡◌, refl, ap, arith, Option, none, some, List, ◌∷◌}
use go_infrastructure.Kratos.Defs.{Platform}
use go_infrastructure.Middleware.Handler.{
  Context, returned, panicked, Handler, Middleware, operation_of, kind_of,
}
use go_infrastructure.Middleware.World.{World, LogLine}
use go_infrastructure.Middleware.Logid
use go_infrastructure.Middleware.Observe.{
  access, metric, on_panic, err_panic, access_line, metric_code, code_of,
}
use go_infrastructure.Server.Chain.{Kratos, default_chain, server_chain}

module _ (P : Platform) {R : Type 0} (K : Kratos P (World R)) where
  open P use {Any, Err, of_kratos, code, code-new_error}

  -- The chain inside recovery: tracing, logid, access and metric around the rest.
  abbrev inside : List (Middleware P (World R)) → Handler P (World R) → Handler P (World R)
  inside extra h = K.tracing (Logid.server P (access P (metric P (K.chain extra h))))

  chain-inside :
      (extra : List (Middleware P (World R))) (h : Handler P (World R))
      → K.chain (server_chain P K extra) h ≡ K.recover (on_panic P) (inside extra h)
  unfolding server_chain default_chain
  chain-inside extra h = rw (
    K.chain-cons (K.recover (on_panic P)) (K.tracing ∷ Logid.server P ∷ access P ∷ metric P ∷ extra)
        h,
    K.chain-cons K.tracing (Logid.server P ∷ access P ∷ metric P ∷ extra) h,
    K.chain-cons (Logid.server P) (access P ∷ metric P ∷ extra) h,
    K.chain-cons (access P) (metric P ∷ extra) h,
    K.chain-cons (metric P) extra h,
  )

  -- Where the rest of the chain runs: in the span's context, with the trace id bound.
  abbrev pub entered : Context Any → World R → Context Any × World R
  entered ctx w = Logid.enter P (record ctx { span = K.span_for ctx }) w

  -- Neither tracing nor the trace id changes the transport, the peer, the clock, the request counts or
  -- the rest of the world.
  pub entered-kept :
      (ctx : Context Any) (w : World R)
      → ((entered ctx w).0.server ≡ ctx.server)
        × ((entered ctx w).1.clock ≡ w.clock)
        × ((entered ctx w).1.rest ≡ w.rest)
        × ((entered ctx w).1.requests ≡ w.requests)
        × ((entered ctx w).0.peer ≡ ctx.peer)
  unfolding Logid.enter Logid.new_context
  entered-kept ctx w = (refl, ground arith, ground arith, ground arith, refl)

  inside-returned :
      (extra : List (Middleware P (World R))) (h : Handler P (World R)) (ctx : Context Any)
      (req : Any) (w w2 : World R) (reply : Option Any) (err : Option Err)
      → K.chain extra h (entered ctx w).0 req (entered ctx w).1 ≡ (returned reply err, w2)
      → inside extra h ctx req w ≡ (
        returned reply err,
        record w2 {
          requests =
              (kind_of P (entered ctx w).0, operation_of P (entered ctx w).0, metric_code P err)
              ∷ w2.requests;
          latencies =
              (
                kind_of P (entered ctx w).0,
                operation_of P (entered ctx w).0,
                w2.clock - (entered ctx w).1.clock,
              )
              ∷ w2.latencies;
          log = access_line P (entered ctx w).0 (entered ctx w).1.clock err w2 ∷ w2.log;
        },
      )
  unfolding Logid.server access metric
  inside-returned extra h ctx req w w2 reply err e =
      rw (K.tracing_lem (Logid.server P (access P (metric P (K.chain extra h)))) ctx req w, e)

  inside-panicked :
      (extra : List (Middleware P (World R))) (h : Handler P (World R)) (ctx : Context Any)
      (req v : Any) (w w2 : World R)
      → K.chain extra h (entered ctx w).0 req (entered ctx w).1 ≡ (panicked v, w2)
      → inside extra h ctx req w ≡ (panicked v, w2)
  unfolding Logid.server access metric
  inside-panicked extra h ctx req v w w2 e =
      rw (K.tracing_lem (Logid.server P (access P (metric P (K.chain extra h)))) ctx req w, e)

  -- A request that the rest of the chain answers, by a reply or an error, is answered so to the
  -- caller, and leaves exactly one request count, one latency and one log line. All three name the
  -- kind and operation of the transport; the count has the error as `metric_code` names it and the log
  -- line as `code_of` does, and the log line has the trace id of the context that the handler ran in;
  -- no panic is counted, and the reply header and the rest of the world are as the rest of the chain
  -- left them.
  pub server_chain-returned :
      (extra : List (Middleware P (World R))) (h : Handler P (World R)) (ctx : Context Any)
      (req : Any) (w w2 : World R) (reply : Option Any) (err : Option Err)
      → K.chain extra h (entered ctx w).0 req (entered ctx w).1 ≡ (returned reply err, w2)
      → (w3 : World R) × (K.chain (server_chain P K extra) h ctx req w ≡ (returned reply err, w3))
        × (w3.requests ≡ (kind_of P ctx, operation_of P ctx, metric_code P err) ∷ w2.requests)
        × (w3.latencies
            ≡ (kind_of P ctx, operation_of P ctx, w2.clock - (entered ctx w).1.clock)
              ∷ w2.latencies)
        × (w3.panics ≡ w2.panics)
        × (w3.reply_header ≡ w2.reply_header)
        × (w3.rest ≡ w2.rest)
        × ((line : LogLine) × (w3.log ≡ line ∷ w2.log)
            × (line.trace_id ≡ Logid.from_context P (entered ctx w).0)
            × (line.kind ≡ kind_of P ctx)
            × (line.op ≡ operation_of P ctx)
            × (line.code ≡ code_of P err))
  unfolding Logid.enter access_line
  server_chain-returned extra h ctx req w w2 reply err e = (
    record w2 {
      requests = (kind_of P ctx, operation_of P ctx, metric_code P err) ∷ w2.requests;
      latencies =
          (kind_of P ctx, operation_of P ctx, w2.clock - (entered ctx w).1.clock) ∷ w2.latencies;
      log = access_line P (entered ctx w).0 (entered ctx w).1.clock err w2 ∷ w2.log;
    },
    rw (chain-inside extra h) (
        K.recover-returned (on_panic P) (inside extra h) ctx req w _ reply err
          (inside-returned extra h ctx req w w2 reply err e)),
    refl,
    refl,
    refl,
    refl,
    refl,
    (access_line P (entered ctx w).0 (entered ctx w).1.clock err w2, refl, refl, refl, refl, refl),
  )

  -- The log of kratos' recovery leaves the counters of pkg/metric.
  abbrev pub LeavesCounters : Context Any → Any → Any → World R → Type 0
  LeavesCounters ctx req v w =
      ((K.log_panic ctx req v w).requests ≡ w.requests)
      × ((K.log_panic ctx req v w).latencies ≡ w.latencies)
      × ((K.log_panic ctx req v w).panics ≡ w.panics)

  -- A request whose handler panics is answered by the kratos error PANIC of code 500. It leaves
  -- exactly one count of a panic of its operation, no request count and no latency, where the log of
  -- the recovery leaves the counters; and the access log and the rest of the world are as the
  -- recovery, which logs the panic in the world that the rest of the chain left, left them.
  pub server_chain-panicked :
      (extra : List (Middleware P (World R))) (h : Handler P (World R)) (ctx : Context Any)
      (req v : Any) (w w2 : World R)
      → K.chain extra h (entered ctx w).0 req (entered ctx w).1 ≡ (panicked v, w2)
      → LeavesCounters ctx req v w2
      → (w3 : World R) × (K.chain (server_chain P K extra) h ctx req w
          ≡ (returned none (some (of_kratos (err_panic P))), w3))
        × (code (err_panic P) ≡ 500)
        × (w3.panics ≡ operation_of P ctx ∷ w2.panics)
        × (w3.requests ≡ w2.requests)
        × (w3.latencies ≡ w2.latencies)
        × (w3.log ≡ (K.log_panic ctx req v w2).log)
        × (w3.rest ≡ (K.log_panic ctx req v w2).rest)
  unfolding on_panic
  server_chain-panicked extra h ctx req v w w2 e (requests, latencies, panics) = (
    record (K.log_panic ctx req v w2) {
      panics = operation_of P ctx ∷ (K.log_panic ctx req v w2).panics;
    },
    rw (chain-inside extra h) (
        K.recover-panicked (on_panic P) (inside extra h) ctx req w w2 v
          (inside-panicked extra h ctx req v w w2 e)),
    code-new_error _ _ _,
    ap (λ ps. operation_of P ctx ∷ ps) panics,
    requests,
    latencies,
    refl,
    refl,
  )
