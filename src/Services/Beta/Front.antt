-- ===== src/Services/Beta/Front.antt =====
-- The CORS filter in front of kris-beta's business listener.
use go_infrastructure.Prelude.{
  ◌≡◌, refl, ap, ◌∙◌, true, false, some, List, [], ◌∷◌, ◌++◌, ℤ, GoString, codes, is_empty, lookup,
  eq_str, join, Bool-cases, inl, inr,
}
use go_infrastructure.Kratos.Defs.{Platform}
use go_infrastructure.Middleware.Handler.{Context, Middleware}
use go_infrastructure.Middleware.World.{World}
use go_infrastructure.Middleware.Cors
use go_infrastructure.Middleware.Cors.{
  Request, Response, HttpHandler, filter, is_preflight, origin_allowed, with_allowed_origins,
  allow_origin, allow_methods,
}
use go_infrastructure.Middleware.Cors.Filter.{filter-preflight}
use go_infrastructure.Middleware.Ratelimit.{Net, Bucket}
use go_infrastructure.Server.Chain.{Kratos, ServerOption, filters_are, base_http_opts}
use go_infrastructure.Server.Listen.{Transports, Raw, BizHttpServer}
use go_infrastructure.Server.Listen.Business.{business-routes}
use go_infrastructure.Services.Beta.{State, cors_filter, http_config, new_hs, routes}
use go_infrastructure.Services.Beta.Routes.{auth, limit, new_hs_lem}

module _ {Tls Mw : Type 0} where
  -- The filters among the options of a server.
  abbrev pub filters_of : List (ServerOption Tls Cors.Options Mw) → List Cors.Options
  filters_of [] = []
  filters_of (filters_are fs ∷ os) = fs ++ filters_of os
  filters_of (o ∷ os) = filters_of os

-- Kratos puts the filters around its router, the first one outermost.
abbrev pub filtered :
    (ℤ → GoString) → {W : Type 0} → List Cors.Options → HttpHandler W → HttpHandler W
filtered max_age_hdr [] next = next
filtered max_age_hdr (o ∷ os) next = filter max_age_hdr o (filtered max_age_hdr os next)

module _ (N : Net) (P : Platform) (K : Kratos P (World (State N)))
    (encode_error : P.Err → World (State N) → World (State N)) {Tls : Type 0}
    (T : Transports
      (ServerOption Tls Cors.Options (Middleware P (World (State N))))
      (Raw P K encode_error))
    (boxed : Context P.Any → P.Any) (http_addr : GoString) (max_age_hdr : ℤ → GoString) where
  opts_filters :
      filters_of
        (base_http_opts {Tls = Tls} {Mw = Middleware P (World (State N))} (http_config http_addr))
      ≡ cors_filter ∷ []
  unfolding cors_filter http_config base_http_opts with_allowed_origins eq_str
  opts_filters = elim (Bool-cases (is_empty http_addr)) [
    | inl e ↦ rw (base_http_opts, e) refl
    | inr e ↦ rw (base_http_opts, e) refl
  ]

  -- The filters of a started listener.
  started_filters :
      (bucket : Bucket N) × (hs : BizHttpServer P K encode_error T) × (new_hs N P K encode_error T
          boxed http_addr
        ≡ some (bucket, hs))
      × (filters_of (T.options hs.s) ≡ cors_filter ∷ [])
  started_filters =
      let (served, options, chained) =
        business-routes P K encode_error T boxed (http_config http_addr) (auth N P ∷ limit N P ∷ [])
          (routes N P K encode_error) [] in
      (_, _, new_hs_lem N P K encode_error T boxed http_addr, ap filters_of options ∙ opts_filters)

  -- A preflight request from any origin and for any path, with no token, is answered by the filters
  -- of a started kris-beta with status 204, the wildcard origin and the three methods. It does not
  -- reach the router behind them, so that the service's world, its buckets, counters and log
  -- among it, stays as it is.
  pub new_hs-preflight :
      (router : HttpHandler (World (State N))) (r : Request) (w : Response (World (State N)))
      → is_empty (r.get (codes "Origin")) ≡ false
      → is_preflight r ≡ true
      → (bucket : Bucket N) × (hs : BizHttpServer P K encode_error T) × (answer : Response
          (World (State N)))
        × (new_hs N P K encode_error T boxed http_addr ≡ some (bucket, hs))
        × (filtered max_age_hdr (filters_of (T.options hs.s)) router r w ≡ answer)
        × (answer.status ≡ some 204)
        × (answer.rest ≡ w.rest)
        × (lookup allow_origin answer.header ≡ some (codes "*" ∷ []))
        × (lookup allow_methods answer.header ≡ some (codes "GET, POST, OPTIONS" ∷ []))
  unfolding cors_filter http_config origin_allowed with_allowed_origins eq_str join
  new_hs-preflight router r w n p =
      let (bucket, hs, started, filters) = started_filters in
      let (status, rest, origin, methods) =
        filter-preflight max_age_hdr cors_filter router r w n refl p in
      (
        bucket,
        hs,
        filter max_age_hdr cors_filter router r w,
        started,
        ap (λ (fs : List Cors.Options). filtered max_age_hdr fs router r w) filters,
        status,
        rest,
        origin,
        methods,
      )
