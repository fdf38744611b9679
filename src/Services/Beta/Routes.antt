-- ===== src/Services/Beta/Routes.antt =====
-- The routes of kris-beta's business listener and the chain in front of them.
use go_infrastructure.Prelude.{◌≡◌, refl, some, [], ◌∷◌, GoString, codes, eq_str, lookup, none, pos}
use go_infrastructure.Kratos.Defs.{Platform}
use go_infrastructure.Middleware.Handler.{Context, Handler, Middleware}
use go_infrastructure.Middleware.World.{World}
use go_infrastructure.Middleware.Auth
use go_infrastructure.Middleware.Cors
use go_infrastructure.Middleware.Ratelimit
use go_infrastructure.Middleware.Ratelimit.{Net, Bucket, new_bucket}
use go_infrastructure.Server.Chain.{Kratos, ServerOption, server_chain}
use go_infrastructure.Server.Listen.{Transports, Raw, BizHttpServer, new_biz_http_server}
use go_infrastructure.Server.Listen.Business.{behind, handled, business-routes}
use go_infrastructure.Services.Beta.{
  State, holder, validator, is_public, auth_mw, rl_mw, http_config, public_ok, whoami, routes,
  new_hs,
}

module _ (N : Net) (P : Platform) where
  abbrev pub auth_options : Auth.Options P (World (State N))
  auth_options = record {
    validator = some (validator N P);
    skip = some (is_public N P);
    header = codes "authorization";
    scheme = codes "Bearer ";
  }

  abbrev pub limit_options : Ratelimit.Options N P
  limit_options = record { rps = pos 50; burst = pos 100; key = none; skip = none }

  abbrev pub auth : Middleware P (World (State N))
  auth = Auth.serve P auth_options (validator N P)

  abbrev pub limit : Middleware P (World (State N))
  limit = Ratelimit.serve N P (holder N P) limit_options

module _ (N : Net) (P : Platform) (K : Kratos P (World (State N)))
    (encode_error : P.Err → World (State N) → World (State N)) where
  pub chain-extra :
      (h : Handler P (World (State N)))
      → K.chain (auth N P ∷ limit N P ∷ []) h ≡ auth N P (limit N P h)
  chain-extra h =
      rw (K.chain-cons (auth N P) (limit N P ∷ []) h, K.chain-cons (limit N P) [] h, K.chain-nil h)

  module _ {Tls : Type 0}
      (T : Transports
        (ServerOption Tls Cors.Options (Middleware P (World (State N))))
        (Raw P K encode_error))
      (boxed : Context P.Any → P.Any) (http_addr : GoString) where
    -- A path that the business listener of a start of the service serves by the handler.
    abbrev pub Serves : GoString → Raw P K encode_error → Type 0
    Serves path h =
        (bucket : Bucket N) × (hs : BizHttpServer P K encode_error T) × (new_hs N P K encode_error T
            boxed http_addr
          ≡ some (bucket, hs))
        × (bucket ≡ new_bucket N (pos 50) (pos 100))
        × (T.route_of hs.s path ≡ some h)

    abbrev pub guarded : Raw P K encode_error → Raw P K encode_error
    guarded = behind P K encode_error T boxed (server_chain P K (auth N P ∷ limit N P ∷ []))

    pub new_hs_lem :
        new_hs N P K encode_error T boxed http_addr
        ≡ some (
          new_bucket N (pos 50) (pos 100),
          new_biz_http_server P K encode_error T
              (http_config http_addr)
              (some (handled P K encode_error T boxed (routes N P K encode_error)))
              (auth N P ∷ limit N P ∷ []),
        )
    unfolding new_hs auth_mw rl_mw Auth.server Auth.apply Auth.with_validator Auth.with_skip
        Ratelimit.server Ratelimit.apply Ratelimit.with_rate
    new_hs_lem = refl

    pub new_hs-Serves :
        Serves (codes "/") (guarded (public_ok N P K encode_error))
        × Serves (codes "/whoami") (guarded (whoami N P K encode_error))
    unfolding lookup eq_str
    new_hs-Serves =
        let at = λ (path : GoString).
          (business-routes P K encode_error T boxed (http_config http_addr)
            (auth N P ∷ limit N P ∷ []) (routes N P K encode_error) path).0 in
        ((_, _, new_hs_lem, refl, at (codes "/")), (_, _, new_hs_lem, refl, at (codes "/whoami")))
