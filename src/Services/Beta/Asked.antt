-- ===== src/Services/Beta/Asked.antt =====
-- Requests to /whoami of kris-beta, through the chain of its listener.
use go_infrastructure.Prelude.{
  ◌≡◌, ap, ◌∙◌, Bool, true, false, none, some, [], ◌∷◌, ◌++◌, GoString, codes, eq_str, has_prefix,
  if◌then◌else◌,
}
use go_infrastructure.Kratos.Defs.{Platform}
use go_infrastructure.Middleware.Handler.{
  Claims, Context, Middleware, returned, operation_of, kind_of,
}
use go_infrastructure.Middleware.World.{World}
use go_infrastructure.Middleware.Auth
use go_infrastructure.Middleware.Cors
use go_infrastructure.Middleware.Observe.{metric_code}
use go_infrastructure.Middleware.Ratelimit.{Net, Bucket, default_key, allow, err_too_many_requests}
use go_infrastructure.Server.Response.{write}
use go_infrastructure.Server.Chain.{Kratos, ServerOption, served, as_outcome}
use go_infrastructure.Server.Chain.Observed.{entered, entered-kept}
use go_infrastructure.Server.Chain.Served.{handler_of, wrap_handler-answered}
use go_infrastructure.Server.Listen.{Transports, Raw}
use go_infrastructure.Services.Beta.{State, is_public, on_response, whoami}
use go_infrastructure.Services.Beta.Routes.{auth, limit, chain-extra, guarded}
use go_infrastructure.Services.Beta.Guards.{
  bearer, operation_same, bearer_same, allow_same, auth-refuses, auth-accepts, limit-allows,
}

module _ (N : Net) (P : Platform) (K : Kratos P (World (State N)))
    (encode_error : P.Err → World (State N) → World (State N)) {Tls : Type 0}
    (T : Transports
      (ServerOption Tls Cors.Options (Middleware P (World (State N))))
      (Raw P K encode_error))
    (boxed : Context P.Any → P.Any) (http_addr : GoString) where
  open P use {Any, Err, of_kratos, code}

  chain-auth :
      (h : Raw P K encode_error) (ctx : Context Any) (w : World (State N))
      → K.chain
          (auth N P ∷ limit N P ∷ [])
          (handler_of P K encode_error h)
          (entered P K ctx w).0
          (boxed ctx)
          (entered P K ctx w).1
        ≡ auth N P
            (limit N P (handler_of P K encode_error h))
            (entered P K ctx w).0
            (boxed ctx)
            (entered P K ctx w).1
  chain-auth h ctx w =
      ap (λ g. g (entered P K ctx w).0 (boxed ctx) (entered P K ctx w).1)
        (chain-extra N P K encode_error (handler_of P K encode_error h))

  pub unauthorized_at :
      (ctx : Context Any) (w : World (State N))
      → operation_of P ctx ≡ codes "/whoami"
      → has_prefix (bearer N P ctx) (codes "demo-") ≡ false
      → (w3 : World (State N)) × (guarded N P K encode_error T boxed http_addr
            (whoami N P K encode_error)
            ctx
            w
          ≡ (served, encode_error (of_kratos (Auth.err_unauthorized P)) w3))
        × (w3.requests
            ≡ (
              kind_of P ctx,
              operation_of P ctx,
              metric_code P (some (of_kratos (Auth.err_unauthorized P))),
            )
              ∷ w.requests)
        × (w3.rest ≡ w.rest)
        × (w3.reply_header ≡ (entered P K ctx w).1.reply_header)
  unfolding eq_str
  unauthorized_at ctx w o t =
      let (server, clock, rest, requests, peer) = entered-kept P K ctx w in
      let h = whoami N P K encode_error in
      let refused =
        auth-refuses N P (limit N P (handler_of P K encode_error h)) (entered P K ctx w).0
          (boxed ctx) (entered P K ctx w).1
          (rw (operation_same N P (entered P K ctx w).0 ctx server, o))
          (rw (bearer_same N P (entered P K ctx w).0 ctx server) t) in
      let (w3, e, r, l, ln, p, rs, hd) =
        wrap_handler-answered P K encode_error (auth N P ∷ limit N P ∷ []) h ctx (boxed ctx) w _
          none _ (chain-auth h ctx w ∙ refused) in
      (w3, e, rw requests at r, rs ∙ rest, hd)

  -- The state of the service with the given bucket.
  abbrev with_bucket : Bucket N → World (State N) → World (State N)
  with_bucket b' w = record w { rest = record (w.rest) { bucket = b' } }

  chain-named :
      (h : Raw P K encode_error) (ctx : Context Any) (w : World (State N)) (name : GoString)
      (b' : Bucket N) (ok : Bool)
      → is_public N P (operation_of P ctx) ≡ false
      → bearer N P ctx ≡ codes "demo-" ++ name
      → allow N w.clock (default_key N ctx (operation_of P ctx)) w.rest.bucket ≡ (ok, b')
      → (inner : Context Any) × (K.chain
            (auth N P ∷ limit N P ∷ [])
            (handler_of P K encode_error h)
            (entered P K ctx w).0
            (boxed ctx)
            (entered P K ctx w).1
          ≡ (if ok
              then handler_of P K encode_error h inner
                  (boxed ctx)
                  (with_bucket b' (entered P K ctx w).1)
              else (
                returned none (some (of_kratos (err_too_many_requests N P))),
                with_bucket b' (entered P K ctx w).1,
              )))
        × (Auth.from_context P inner ≡ some (record { subject = name; scopes = []; raw = [] }))
  chain-named h ctx w name b' ok o t a =
      let (server, clock, rest, requests, peer) = entered-kept P K ctx w in
      let e = entered P K ctx w in
      let g = handler_of P K encode_error h in
      let (inner, reached, claims, server', peer') =
        auth-accepts N P (limit N P g) e.0 (boxed ctx) e.1 name
          (rw (operation_same N P e.0 ctx server) o) (rw (bearer_same N P e.0 ctx server) t) in
      let limited =
        limit-allows N P g inner (boxed ctx) e.1 b' ok
          (allow_same N P inner ctx w e.1 b' ok (server' ∙ server) (peer' ∙ peer) clock rest a) in
      (inner, chain-auth h ctx w ∙ reached ∙ limited, claims)

  whoami-named :
      (inner : Context Any) (req : Any) (w : World (State N)) (c : Claims Any)
      → Auth.from_context P inner ≡ some c
      → handler_of P K encode_error (whoami N P K encode_error) inner req w
        ≡ (returned none none, on_response N (write (codes "hello, " ++ c.subject)) w)
  unfolding whoami as_outcome
  whoami-named inner req w c e = rw (e, whoami)

  pub hello_at :
      (ctx : Context Any) (w : World (State N)) (name : GoString) (b' : Bucket N) (ok : Bool)
      → operation_of P ctx ≡ codes "/whoami"
      → bearer N P ctx ≡ codes "demo-" ++ name
      → allow N w.clock (default_key N ctx (operation_of P ctx)) w.rest.bucket ≡ (ok, b')
      → (w3 : World (State N)) × (guarded N P K encode_error T boxed http_addr
            (whoami N P K encode_error)
            ctx
            w
          ≡ (served, if ok then w3 else encode_error (of_kratos (err_too_many_requests N P)) w3))
        × (w3.rest ≡ record {
          bucket = b';
          out = if ok then write (codes "hello, " ++ name) w.rest.out else w.rest.out;
        })
        × (w3.requests
            ≡ (
              kind_of P ctx,
              operation_of P ctx,
              metric_code P (if ok then none else some (of_kratos (err_too_many_requests N P))),
            )
              ∷ w.requests)
        × (w3.reply_header ≡ (entered P K ctx w).1.reply_header)
  unfolding eq_str
  hello_at ctx w name b' true o t a =
      let h = whoami N P K encode_error in
      let (server, clock, rest, requests, peer) = entered-kept P K ctx w in
      let (inner, c, claims) = chain-named h ctx w name b' true (rw o) t a in
      let (w3, e, r, l, ln, p, rs, hd) =
        wrap_handler-answered P K encode_error (auth N P ∷ limit N P ∷ []) h ctx (boxed ctx) w _
          none none (c ∙ whoami-named inner (boxed ctx) _ _ claims) in
      (w3, e, rw rest at rs, rw requests at r, hd)
  hello_at ctx w name b' false o t a =
      let h = whoami N P K encode_error in
      let (server, clock, rest, requests, peer) = entered-kept P K ctx w in
      let (inner, c, claims) = chain-named h ctx w name b' false (rw o) t a in
      let (w3, e, r, l, ln, p, rs, hd) =
        wrap_handler-answered P K encode_error (auth N P ∷ limit N P ∷ []) h ctx (boxed ctx) w _
          none _ c in
      (w3, e, rw rest at rs, rw requests at r, hd)
