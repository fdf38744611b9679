-- ===== src/Services/Beta/Tests.antt =====
-- kris-beta at two requests to /whoami.
use go_infrastructure.Prelude.{
  ℕ, ◌+◌, ◌*◌, ◌≤◌, ◌≡◌, refl, none, some, [], ◌∷◌, pos, GoString, codes, eq_str, lookup, ℤ,
  if◌then◌else◌,
}
use go_infrastructure.Kratos.Sample.{sample, SampleError}
use go_infrastructure.Middleware.Handler.{Context, Transport, Middleware}
use go_infrastructure.Middleware.World.{World}
use go_infrastructure.Middleware.Auth
use go_infrastructure.Middleware.Logid.{metadata_key}
use go_infrastructure.Middleware.Cors
use go_infrastructure.Middleware.Cors.{Request, Response, allow_origin, allow_methods}
use go_infrastructure.Middleware.Ratelimit.{Bucket, new_bucket}
use go_infrastructure.Middleware.Ratelimit.Sample.{draining, draining-IsTokenBucket}
use go_infrastructure.Server.Sample.{sample_kratos}
use go_infrastructure.Server.Chain.{Kratos, ServerOption}
use go_infrastructure.Server.Listen.{Transports, Raw, BizHttpServer}
use go_infrastructure.Server.Listen.Sample.{sample_transports}
use go_infrastructure.Services.Beta.{State, new_hs, whoami}
use go_infrastructure.Services.Beta.Routes.{Serves, guarded}
use go_infrastructure.Services.Beta.Front.{filters_of, filtered, new_hs-preflight}
use go_infrastructure.Middleware.Ratelimit.Quota.{token}
use go_infrastructure.Services.Beta.Limited.{Visits, passed, passed-le}

abbrev K : Kratos sample (World (State draining))
K = sample_kratos

abbrev encode_error : SampleError → World (State draining) → World (State draining)
encode_error e w = w

abbrev R : Type 0
R = Raw sample K encode_error

abbrev T : Transports (ServerOption ℕ Cors.Options (Middleware sample (World (State draining)))) R
T = sample_transports

abbrev boxed : Context ℕ → ℕ
boxed ctx = 4

-- A transport that has also a trace id.
abbrev authorized : GoString → Transport
authorized header = record {
  kind = codes "http";
  operation = codes "/whoami";
  get = λ k.
      if eq_str k (codes "authorization")
      then header
      else if eq_str k metadata_key
      then codes "t1"
      else [];
}

abbrev asking : GoString → Context ℕ
asking header = record {
  server = some (authorized header);
  client = none;
  span = none;
  peer = none;
  values = [];
}

abbrev started : World (State draining)
started = record {
  reply_header = [];
  request_header = [];
  uuids = λ n. codes "uuid";
  drawn = 0;
  clock = 5;
  requests = [];
  latencies = [];
  panics = [];
  log = [];
  rest = record {
    bucket = new_bucket draining (pos 50) (pos 100);
    out = record { header = []; status = none; body = [] };
  };
}

-- The bucket after the first request.
abbrev spent : Bucket draining
spent = record {
  limiters = (codes "global", record { rate = 50; left = 99 }) ∷ [];
  rps = pos 50;
  burst = pos 100;
}

abbrev preflight : Request
preflight = record {
  method = codes "OPTIONS";
  get = λ k.
      if eq_str k (codes "Origin")
      then codes "https://app"
      else if eq_str k (codes "Access-Control-Request-Method")
      then codes "GET"
      else [];
}

abbrev blank : Response (World (State draining))
blank = record { header = []; status = none; rest = started }

abbrev printed : ℤ → GoString
printed d = codes "600"

new_hs-preflight_example :
    (bucket : Bucket draining) × (hs : BizHttpServer sample K encode_error T) × (answer : Response
      (World (State draining)))
    × (new_hs draining sample K encode_error T boxed (codes ":8082") ≡ some (bucket, hs))
    × (filtered printed (filters_of (T.options hs.s)) (λ r w. w) preflight blank ≡ answer)
    × (answer.status ≡ some 204)
    × (answer.rest ≡ started)
    × (lookup allow_origin answer.header ≡ some (codes "*" ∷ []))
    × (lookup allow_methods answer.header ≡ some (codes "GET, POST, OPTIONS" ∷ []))
unfolding eq_str
new_hs-preflight_example =
    new_hs-preflight draining sample K encode_error T boxed (codes ":8082") printed (λ r w. w)
      preflight blank refl refl

-- A request with a good token, one with another, and the first again.
abbrev visits : Visits draining sample K encode_error T boxed (codes ":8082")
visits =
    (1, asking (codes "Bearer demo-kris"))
    ∷ (2, asking (codes "Bearer other"))
    ∷ (3, asking (codes "Bearer demo-kris"))
    ∷ []

passed-le_example :
    Serves draining sample K encode_error T boxed (codes ":8082") (codes "/whoami") (
      guarded draining sample K encode_error T boxed
        (codes ":8082")
        (whoami draining sample K encode_error))
    × (passed draining sample K encode_error T boxed
            (codes ":8082")
            (codes "global")
            5
            visits
            started
          * token
        ≤ 100 * token + 50 * 6)
passed-le_example =
    passed-le draining sample K encode_error T boxed (codes ":8082") (λ e w. (refl, refl))
      (λ l. l.rate) (λ t l. l.left * token) draining-IsTokenBucket (codes "global") 5 visits started
      (refl, (refl, (refl, tt))) refl
