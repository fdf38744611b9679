-- ===== src/Server/Listen/Tests.antt =====
-- The listeners at the sample servers.
use mathlib.Core.Option
use go_infrastructure.Prelude.{
  ℕ, ◌≡◌, refl, false, none, some, List, [], ◌∷◌, ◌++◌, pos, GoString, codes, lookup,
}
use go_infrastructure.Kratos.Sample.{sample, SampleError}
use go_infrastructure.Middleware.Handler.{Context, Middleware}
use go_infrastructure.Middleware.World.{World}
use go_infrastructure.Server.Sample.{sample_kratos}
use go_infrastructure.Server.Response.{Response, Writer, write}
use go_infrastructure.Server.Chain.{
  Kratos, HttpConfig, ServerOption, middlewares_are, server_chain, base_http_opts, served,
}
use go_infrastructure.Server.Probe.{Ready, Drainer, before_stop, readiness_pinger}
use go_infrastructure.Server.Listen.{
  Transports, Pprof, Raw, health_handler, BizHttpServer, new_biz_http_server,
}
use go_infrastructure.Server.Listen.Sample.{sample_transports}
use go_infrastructure.Server.Listen.Sidecar.{
  sidecar, sidecar_routes, sidecar-routes, sidecar-draining,
}
use go_infrastructure.Server.Listen.Business.{behind, handled, business-routes}

abbrev K : Kratos sample (World (Drainer × Response))
K = sample_kratos

abbrev encode_error : SampleError → World (Drainer × Response) → World (Drainer × Response)
encode_error e w = w

abbrev R : Type 0
R = Raw sample K encode_error

abbrev T : Transports (ServerOption ℕ ℕ (Middleware sample (World (Drainer × Response)))) R
T = sample_transports

abbrev out : Writer (World (Drainer × Response))
out = record {
  response = λ w. w.rest.1;
  set_response = λ r w. record w { rest = (w.rest.0, r) };
  response-set_response = λ r w. refl;
}

abbrev encode : Ready → GoString
encode r = codes "ready"

-- A handler that writes a text.
abbrev saying : GoString → R
saying text ctx w = (served, out.set_response (write text (out.response w)) w)

abbrev profiling : Pprof R
profiling = record {
  index = saying (codes "index");
  cmdline = saying (codes "cmdline");
  profile = saying (codes "profile");
  symbol = saying (codes "symbol");
  trace = saying (codes "trace");
}

abbrev metrics : R
metrics = saying (codes "metrics")

abbrev cfg : HttpConfig ℕ ℕ
cfg = record {
  network = codes "tcp";
  addr = codes ":8083";
  timeout = pos 0;
  filters = [];
  tls_config = none;
}

abbrev later : List (GoString × R)
later = (codes "/healthz", metrics) ∷ (codes "/version", saying (codes "v1")) ∷ []

sidecar-routes_example :
    (T.route_of
        (sidecar sample K encode_error T out encode metrics profiling cfg later none)
        (codes "/version")
      ≡ lookup
          (codes "/version")
          (sidecar_routes sample K encode_error T out encode metrics profiling cfg none ++ later))
    × (T.options (sidecar sample K encode_error T out encode metrics profiling cfg later none)
        ≡ base_http_opts cfg)
sidecar-routes_example =
    sidecar-routes sample K encode_error T out encode metrics profiling cfg later none
      (codes "/version")

-- The service cannot take /healthz over.
healthz_kept :
    T.route_of
      (sidecar sample K encode_error T out encode metrics profiling cfg later none)
      (codes "/healthz")
    ≡ some (health_handler sample K encode_error out)
unfolding lookup go_infrastructure.Prelude.eq_str
healthz_kept =
    (sidecar-routes sample K encode_error T out encode metrics profiling cfg later none
      (codes "/healthz")).0

abbrev of : World (Drainer × Response) → Drainer
of w = w.rest.0

abbrev drainer : Drainer
drainer = record { delay = pos 10; draining = false }

abbrev stopping : World (Drainer × Response)
stopping = record {
  reply_header = [];
  request_header = [];
  uuids = λ n. codes "uuid";
  drawn = 0;
  clock = 5;
  requests = [];
  latencies = [];
  panics = [];
  log = [];
  rest = ((before_stop drainer).1, record { header = []; status = none; body = [] });
}

abbrev caller : Context ℕ
caller = record { server = none; client = none; span = none; peer = none; values = [] }

abbrev draining_sidecar : T.Server
draining_sidecar =
    sidecar sample K encode_error T out encode metrics profiling cfg later
      (some (readiness_pinger of ∷ []))

sidecar-draining_run :
    ((ready : R) × (T.route_of draining_sidecar (codes "/readyz") ≡ some ready)
      × ((ready caller stopping).0 ≡ served)
      × (((ready caller stopping).1.rest.1).status ≡ some 503))
    × ((health : R) × (T.route_of draining_sidecar (codes "/healthz") ≡ some health)
        × ((health caller stopping).0 ≡ served)
        × (((health caller stopping).1.rest.1).status ≡ some 200))
sidecar-draining_run =
    sidecar-draining sample K encode_error T out encode metrics profiling cfg of drainer [] [] later
      caller stopping refl refl

abbrev routes : List (GoString × R)
routes = (codes "/", saying (codes "ok")) ∷ []

abbrev boxed : Context ℕ → ℕ
boxed ctx = 4

abbrev business : BizHttpServer sample K encode_error T
business =
    new_biz_http_server sample K encode_error T cfg
      (some (handled sample K encode_error T boxed routes)) []

business-routes_run :
    (T.route_of business.s (codes "/")
      ≡ Option.map
          (behind sample K encode_error T boxed (server_chain sample K []))
          (lookup (codes "/") routes))
    × (T.options business.s ≡ middlewares_are (server_chain sample K []) ∷ base_http_opts cfg)
    × (business.chain ≡ server_chain sample K [])
business-routes_run = business-routes sample K encode_error T boxed cfg [] routes (codes "/")
