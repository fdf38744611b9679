-- ===== src/Server/Chain/Served.antt =====
-- Raw handlers of net/http behind the default chain.
use go_infrastructure.Prelude.{◌-◌, ◌≡◌, refl, Option, none, some, List, ◌∷◌}
use go_infrastructure.Kratos.Defs.{Platform}
use go_infrastructure.Middleware.Handler.{
  Context, returned, panicked, Handler, Middleware, operation_of, kind_of,
}
use go_infrastructure.Middleware.World.{World, LogLine}
use go_infrastructure.Middleware.Logid
use go_infrastructure.Middleware.Observe.{err_panic, metric_code, code_of}
use go_infrastructure.Server.Chain.{
  Kratos, default_chain, server_chain, RawHandler, served, as_outcome, finish, wrap_handler,
}
use go_infrastructure.Server.Chain.Observed.{
  entered, LeavesCounters, server_chain-returned, server_chain-panicked,
}

module _ (P : Platform) {R : Type 0} (K : Kratos P (World R))
    (encode_error : P.Err → World R → World R) where
  open P use {Any, Err, of_kratos, code}

  -- The handler that the chain gets for a raw one.
  abbrev pub handler_of : RawHandler P K encode_error → Handler P (World R)
  handler_of h c r v = as_outcome P K encode_error (h c v)

  -- The response after an answer of the chain.
  abbrev pub answered : Option Err → World R → World R
  answered none w = w
  answered (some e) w = encode_error e w

  wrap_handler-finish :
      (extra : List (Middleware P (World R))) (req : Any) (h : RawHandler P K encode_error)
      (ctx : Context Any) (w : World R)
      → wrap_handler P K encode_error (server_chain P K extra) req h ctx w
        ≡ finish P K encode_error (K.chain (server_chain P K extra) (handler_of h) ctx req w)
  unfolding wrap_handler server_chain default_chain
  wrap_handler-finish extra req h ctx w = refl

  finish-returned :
      (reply : Option Any) (err : Option Err) (w : World R)
      → finish P K encode_error (returned reply err, w) ≡ (served, answered err w)
  unfolding finish
  finish-returned reply none w = refl
  finish-returned reply (some e) w = refl

  -- A raw handler registered behind the default chain, where the middlewares added to that chain
  -- and the handler answer: the request is served, the error of the answer is written to the
  -- response and nothing is where there is none, and before that exactly one request count, one
  -- latency and one log line are left, while the reply header and the rest of the world, the response
  -- among it, are as the rest of the chain left them.
  pub wrap_handler-answered :
      (extra : List (Middleware P (World R))) (h : RawHandler P K encode_error) (ctx : Context Any)
      (req : Any) (w w2 : World R) (reply : Option Any) (err : Option Err)
      → K.chain extra (handler_of h) (entered P K ctx w).0 req (entered P K ctx w).1
        ≡ (returned reply err, w2)
      → (w3 : World R) × (wrap_handler P K encode_error (server_chain P K extra) req h ctx w
          ≡ (served, answered err w3))
        × (w3.requests ≡ (kind_of P ctx, operation_of P ctx, metric_code P err) ∷ w2.requests)
        × (w3.latencies
            ≡ (kind_of P ctx, operation_of P ctx, w2.clock - (entered P K ctx w).1.clock)
              ∷ w2.latencies)
        × ((line : LogLine) × (w3.log ≡ line ∷ w2.log)
            × (line.trace_id ≡ Logid.from_context P (entered P K ctx w).0)
            × (line.kind ≡ kind_of P ctx)
            × (line.op ≡ operation_of P ctx)
            × (line.code ≡ code_of P err))
        × (w3.panics ≡ w2.panics)
        × (w3.rest ≡ w2.rest)
        × (w3.reply_header ≡ w2.reply_header)
  wrap_handler-answered extra h ctx req w w2 reply err e =
      let (w3, c, r, l, p, hd, rs, ln) =
        server_chain-returned P K extra (handler_of h) ctx req w w2 reply err e in
      (
        w3,
        rw (wrap_handler-finish extra req h ctx w, c) (finish-returned reply err w3),
        r,
        l,
        ln,
        p,
        rs,
        hd,
      )

  -- Where the raw handler, or a middleware added to the default chain, panics, the response is the
  -- encoded kratos error PANIC of code 500, exactly one panic of the operation is
  -- counted where the log of the recovery leaves the counters, and no panic reaches net/http.
  pub wrap_handler-panicked :
      (extra : List (Middleware P (World R))) (h : RawHandler P K encode_error) (ctx : Context Any)
      (req v : Any) (w w2 : World R)
      → K.chain extra (handler_of h) (entered P K ctx w).0 req (entered P K ctx w).1
        ≡ (panicked v, w2)
      → LeavesCounters P K ctx req v w2
      → (w3 : World R) × (wrap_handler P K encode_error (server_chain P K extra) req h ctx w
          ≡ (served, encode_error (of_kratos (err_panic P)) w3))
        × (code (err_panic P) ≡ 500)
        × (w3.panics ≡ operation_of P ctx ∷ w2.panics)
        × (w3.rest ≡ (K.log_panic ctx req v w2).rest)
  wrap_handler-panicked extra h ctx req v w w2 e q =
      let (w3, c, cd, p, r, l, g, rs) =
        server_chain-panicked P K extra (handler_of h) ctx req v w w2 e q in
      (
        w3,
        rw (wrap_handler-finish extra req h ctx w, c)
            (finish-returned none (some (of_kratos (err_panic P))) w3),
        cd,
        p,
        rs,
      )
