-- ===== src/Services/Beta.antt =====
-- kris-beta/cmd/beta/main.go: auth and rate limit behind the default chain, a CORS filter before it. Flags,
-- the host name and the run of the app are in the module Main.
pub mod Routes
pub mod Guards
pub mod Asked
pub mod Whoami
pub mod Main
pub mod Front
pub mod Counted
pub mod Limited
mod Tests
use go_infrastructure.Prelude.{
  ◌≡◌, refl, Option, none, some, List, [], ◌∷◌, ◌++◌, ℤ, pos, Bool, GoString, codes, eq_str,
  has_prefix, drop, if◌then◌else◌,
}
use go_infrastructure.Kratos.Defs.{Platform}
use go_infrastructure.Middleware.Handler.{Claims, Context, Middleware}
use go_infrastructure.Middleware.World.{World}
use go_infrastructure.Middleware.Auth
use go_infrastructure.Middleware.Cors
use go_infrastructure.Middleware.Ratelimit
use go_infrastructure.Middleware.Ratelimit.{Net, Bucket, Holder}
use go_infrastructure.Server.Response.{Response, Writer, write, error}
use go_infrastructure.Server.Chain.{Kratos, HttpConfig, ServerOption, served}
use go_infrastructure.Server.Listen.{
  Transports, Pprof, Raw, BizHttpServer, new_biz_http_server, new_other_http_server,
}
use go_infrastructure.Server.Listen.Business.{handled}
use go_infrastructure.Server.Probe.{Ready}
use go_infrastructure.Version.{Info}
use go_infrastructure.Version

-- What the service adds to the world: its bucket of limiters and what its handlers write to
-- the response of a request; the header that the middlewares set is the `reply_header` of the world.
pub record State (N : Net) : Type 0 where
  pub bucket : Bucket N
  pub out : Response

module _ (N : Net) where
  abbrev pub writer : Writer (World (State N))
  writer = record {
    response = λ w. w.rest.out;
    set_response = λ r w. record w { rest = record (w.rest) { out = r } };
    response-set_response = λ r w. refl;
  }

  abbrev pub on_response : (Response → Response) → World (State N) → World (State N)
  on_response f w = writer.set_response (f (writer.response w)) w

  module _ (P : Platform) where
    open P use {Any, Err, of_kratos}

    abbrev pub holder : Holder N P (World (State N))
    holder = record {
      bucket = λ w. w.rest.bucket;
      set_bucket = λ b w. record w { rest = record (w.rest) { bucket = b } };
      now = λ w. w.clock;
    }

    -- `strings.TrimPrefix` of a prefix that is there drops its bytes.
    pub validator : Auth.Validator P (World (State N))
    validator ctx token w =
        if has_prefix token (codes "demo-")
        then ((some (record { subject = drop 5 token; scopes = []; raw = [] }), none), w)
        else ((none, some (of_kratos (Auth.err_unauthorized P))), w)

    abbrev pub is_public : GoString → Bool
    is_public op = eq_str op (codes "/")

    -- `none` is a panic of `auth.Server`.
    pub auth_mw : Option (Middleware P (World (State N)))
    auth_mw = Auth.server P (Auth.with_validator P validator ∷ Auth.with_skip P is_public ∷ [])

    pub rl_mw : Bucket N × Middleware P (World (State N))
    rl_mw = Ratelimit.server N P holder (Ratelimit.with_rate N P (pos 50) (pos 100) ∷ [])

-- The options of the CORS filter.
pub cors_filter : Cors.Options
cors_filter =
    Cors.with_allowed_methods (codes "GET" ∷ codes "POST" ∷ codes "OPTIONS" ∷ [])
      (Cors.with_allowed_origins (codes "*" ∷ []) Cors.default_options)

-- A filter of the listener is given by its CORS options.
pub http_config : {Tls : Type 0} → GoString → HttpConfig Tls Cors.Options
http_config http_addr = record {
  network = codes "tcp";
  addr = http_addr;
  timeout = pos 0;
  filters = cors_filter ∷ [];
  tls_config = none;
}

module _ (N : Net) (P : Platform) (K : Kratos P (World (State N)))
    (encode_error : P.Err → World (State N) → World (State N)) where
  pub public_ok : Raw P K encode_error
  public_ok ctx w = (served, on_response N (write (codes "kris-beta public ok")) w)

  unfoldable pub whoami : Raw P K encode_error
  whoami ctx w = elim (Auth.from_context P ctx) [
    | none ↦ (served, on_response N (error (codes "no claims") 401) w)
    | some claims ↦ (served, on_response N (write (codes "hello, " ++ claims.subject)) w)
  ]

  abbrev pub routes : List (GoString × Raw P K encode_error)
  routes = (codes "/", public_ok) ∷ (codes "/whoami", whoami) ∷ []

  -- The business listener, with the new bucket of its rate limiter; `none` where `main` panics.
  pub new_hs :
      {Tls : Type 0}
      → (T : Transports
          (ServerOption Tls Cors.Options (Middleware P (World (State N))))
          (Raw P K encode_error))
      → (Context P.Any → P.Any)
      → GoString
      → Option (Bucket N × BizHttpServer P K encode_error T)
  unfolding http_config
  new_hs T boxed http_addr = elim (auth_mw N P) [
    | none ↦ none
    | some auth ↦
        let (bucket, limit) = rl_mw N P in
        some (
          bucket,
          new_biz_http_server P K encode_error T (http_config http_addr)
              (some (handled P K encode_error T boxed routes)) (auth ∷ limit ∷ []),
        )
  ]

  pub version_route : (Info → GoString) → GoString → Info → Raw P K encode_error
  version_route marshal go i ctx w = (served, on_response N (Version.handler marshal go i) w)

  -- The sidecar, with no probes.
  pub new_oh :
      {Tls Filter : Type 0}
      → (T : Transports
          (ServerOption Tls Filter (Middleware P (World (State N))))
          (Raw P K encode_error))
      → (Ready → GoString)
      → (Info → GoString)
      → GoString
      → Raw P K encode_error
      → Pprof (Raw P K encode_error)
      → (other_addr : GoString) → Info
      → T.Server
  new_oh T encode marshal go metrics profiling other_addr info =
      T.handle_func (codes "/version") (version_route marshal go info) (
        new_other_http_server P K encode_error T (writer N) encode metrics profiling
          (record {
            network = codes "tcp";
            addr = other_addr;
            timeout = pos 0;
            filters = [];
            tls_config = none;
          })
          none)
