-- ===== src/Services/Gamma/Tests.antt =====
-- kris-gamma with a connection that is down.
use go_infrastructure.Prelude.{
  ℕ, ◌≡◌, refl, true, false, none, some, List, [], ◌∷◌, GoString, codes,
}
use go_infrastructure.Kratos.Sample.{sample, SampleError, SampleKratos}
use go_infrastructure.Middleware.Handler.{Context, Handler, Middleware, returned}
use go_infrastructure.Middleware.World.{World, LogLine}
use go_infrastructure.Middleware.Logid
use go_infrastructure.Middleware.Timeout
use go_infrastructure.Client.Dial.{connected, Dialer}
use go_infrastructure.Client.Grpc.{ClientOption, new_grpc}
use go_infrastructure.Server.Sample.{sample_kratos}
use go_infrastructure.Server.Response.{Response, Writer, write}
use go_infrastructure.Server.Chain.{Kratos, ServerOption, middlewares_are, served}
use go_infrastructure.Server.Probe.{Ready}
use go_infrastructure.Server.Listen.{Transports, Pprof, Raw}
use go_infrastructure.Server.Listen.Sample.{sample_transports}
use go_infrastructure.Services.Gamma.{Connectivity, transient_failure, upstream_config, start}
use go_infrastructure.Services.Process.{AppOption, Host}
use go_infrastructure.Services.Gamma.Main.{Served, Flags}
use go_infrastructure.Services.Gamma.Overdue.{start-overdue}
use go_infrastructure.Services.Gamma.Ready.{start-readiness}
use go_infrastructure.Version.{Info}

abbrev K : Kratos sample (World Response)
K = sample_kratos

abbrev encode_error : SampleError → World Response → World Response
encode_error e w = w

abbrev R : Type 0
R = Raw sample K encode_error

abbrev Setting : Type 0
Setting = ServerOption ℕ ℕ (Middleware sample (World Response))

abbrev T : Transports Setting R
T = sample_transports

abbrev out : Writer (World Response)
out = record {
  response = λ w. w.rest;
  set_response = λ r w. record w { rest = r };
  response-set_response = λ r w. refl;
}

abbrev net : Dialer (ClientOption sample ℕ) ℕ (World Response)
net = record {
  dial = λ d opts w. (connected 8, w);
  close = λ c w. (none, w);
  info = λ msg w. w;
  error = λ msg w. w;
}

abbrev get_state : ℕ → World Response → Connectivity
get_state conn w = transient_failure

abbrev race : Timeout.Race sample (World Response)
race = record { answers_first = λ d w. true; abandon = λ w. w }

abbrev silent : R
silent ctx w = (served, w)

abbrev profiling : Pprof R
profiling = record {
  index = silent;
  cmdline = silent;
  profile = silent;
  symbol = silent;
  trace = silent;
}

abbrev options_of : List Setting → List Setting
options_of os = os

abbrev encode : Ready → GoString
encode r = codes "ready"

abbrev marshal : Info → GoString
marshal i = i.name

abbrev warn : GoString → World Response → World Response
warn msg w = w

abbrev info : Info
info = record {
  name = codes "kris-gamma";
  version = codes "dev";
  commit = [];
  build_time = [];
  go = [];
}

abbrev world : World Response
world = record {
  reply_header = [];
  request_header = [];
  uuids = λ n. codes "uuid";
  drawn = 0;
  clock = 5;
  requests = [];
  latencies = [];
  panics = [];
  log = [];
  rest = record { header = []; status = none; body = [] };
}

abbrev caller : Context ℕ
caller = record { server = none; client = none; span = none; peer = none; values = [] }

start-readiness_example :
    (ready : R) × (T.route_of
        (start sample K encode_error out net get_state race options_of T encode marshal
          (codes "go1.24")
          silent
          profiling
          warn
          (codes "kris-alpha:50051")
          (codes ":50053")
          (codes ":8085")
          info
          world).0.oh
        (codes "/readyz")
      ≡ some ready)
    × ((out.response (ready caller world).1).status ≡ some 503)
unfolding new_grpc upstream_config
start-readiness_example =
    start-readiness sample K encode_error out net get_state race options_of T encode marshal
      (codes "go1.24") silent profiling warn (codes "kris-alpha:50051") (codes ":50053")
      (codes ":8085") info caller world world refl

-- The app ends with an error, as where its port is taken.
abbrev host : Host ℕ (AppOption ℕ (Served (List Setting) T.Server) ℕ) (World Response)
host = record {
  hostname = codes "pod-7";
  stdout = 1;
  run = λ opts w. (some (codes "address already in use"), w);
  fatal = λ msg w. record w { rest = write msg w.rest };
}

abbrev parsed : Flags
parsed = record {
  grpc_addr = codes ":50053";
  other_addr = codes ":8085";
  upstream = codes "kris-alpha:50051";
}

-- A handler that never answers in time.
abbrev late : Timeout.Race sample (World Response)
late = record { answers_first = λ d w. false; abandon = λ w. w }

abbrev rpc : Context ℕ
rpc = record caller {
  server = some (record { kind = codes "grpc"; operation = codes "/Get"; get = λ k. [] });
}

abbrev slow : Handler sample (World Response)
slow ctx req w = (returned (some req) none, w)

start-overdue_example :
    (mws : List (Middleware sample (World Response))) × (rest : List Setting) × (w3 : World
      Response)
    × (e : SampleKratos) × ((start sample K encode_error out net get_state late options_of T encode
          marshal
          (codes "go1.24")
          silent
          profiling
          warn
          (codes "kris-alpha:50051")
          (codes ":50053")
          (codes ":8085")
          info
          world).0.gs
        ≡ middlewares_are mws ∷ rest)
    × (K.chain mws slow rpc 4 world ≡ (returned none (some (SampleError.kratos e)), w3))
    × (e.code ≡ 504)
    × (w3.requests ≡ (codes "grpc", codes "/Get", codes "DEADLINE_EXCEEDED") ∷ [])
    × ((line : LogLine) × (w3.log ≡ line ∷ [])
        × (line.op ≡ codes "/Get")
        × (line.code ≡ codes "DEADLINE_EXCEEDED"))
unfolding Logid.enter
start-overdue_example =
    start-overdue sample K encode_error out net get_state late options_of T encode marshal
      (codes "go1.24") silent profiling warn (codes "kris-alpha:50051") (codes ":50053")
      (codes ":8085") info slow rpc 4 world world refl
