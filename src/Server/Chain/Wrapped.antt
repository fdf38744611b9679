-- ===== src/Server/Chain/Wrapped.antt =====
-- Raw handlers behind `wrapHandler`.
use go_infrastructure.Prelude.{◌≡◌, refl, ap, ◌∙◌, false, List, [], ◌∷◌}
use go_infrastructure.Kratos.Defs.{Platform}
use go_infrastructure.Middleware.Handler.{Context, Handler, Middleware, operation_of}
use go_infrastructure.Middleware.Auth
use go_infrastructure.Middleware.Auth.Access.{token_of, serve_no_token}
use go_infrastructure.Server.Chain.{Kratos, RawHandler, served, wrap_handler, as_outcome, finish}

module _ (P : Platform) {W : Type 0} (K : Kratos P W) (encode_error : P.Err → W → W) where
  open P use {Any, Err, of_kratos}

  -- Where the chain of at least one middleware calls its handler in a context and a world and passes
  -- the handler's end on, a raw handler that returns there is served with no error written.
  pub wrap_handler-reached :
      (m : Middleware P W) (ms : List (Middleware P W)) (req : Any)
      (h : RawHandler P K encode_error) (ctx inner : Context Any) (w w1 w2 : W)
      → ((kh : Handler P W) → K.chain (m ∷ ms) kh ctx req w ≡ kh inner req w1)
      → h inner w1 ≡ (served, w2)
      → wrap_handler P K encode_error (m ∷ ms) req h ctx w ≡ (served, w2)
  unfolding wrap_handler as_outcome finish
  wrap_handler-reached m ms req h ctx inner w w1 w2 go e =
      ap (finish P K encode_error) (go (λ c r v. as_outcome P K encode_error (h c v))) ∙ rw e

  -- Behind the auth middleware as the outermost one, outside the skipped operations, a request with no token never reaches a raw
  -- handler: whatever the handler and the middlewares behind, the response is the encoded kratos
  -- error for missing credentials.
  pub wrap_handler-unauthorized :
      (o : Auth.Options P W) (validate : Auth.Validator P W) (ms : List (Middleware P W))
      (req : Any) (h : RawHandler P K encode_error) (ctx : Context Any) (w : W)
      → Auth.skips P o.skip (operation_of P ctx) ≡ false
      → token_of P o ctx ≡ []
      → wrap_handler P K encode_error (Auth.serve P o validate ∷ ms) req h ctx w
        ≡ (served, encode_error (of_kratos (Auth.err_unauthorized P)) w)
  unfolding wrap_handler finish
  wrap_handler-unauthorized o validate ms req h ctx w s t =
      rw
        (
          K.chain-cons (Auth.serve P o validate) ms,
          (serve_no_token P o validate (K.chain ms _) ctx req w s t).0,
        )
        refl
