-- ===== src/Services/Alpha/Tests.antt =====
-- kris-alpha before and after its stop hook.
use go_infrastructure.Prelude.{ℕ, ◌≡◌, refl, true, none, some, List, [], pos, GoString, codes}
use go_infrastructure.Kratos.Sample.{sample, SampleError}
use go_infrastructure.Middleware.Handler.{Context, Middleware}
use go_infrastructure.Middleware.World.{World}
use go_infrastructure.Server.Sample.{sample_kratos}
use go_infrastructure.Server.Chain.{Kratos, ServerOption, served}
use go_infrastructure.Server.Probe.{Ready, Drainer, new_drainer}
use go_infrastructure.Server.Listen.{Transports, Pprof, Raw}
use go_infrastructure.Server.Listen.Sample.{sample_transports}
use go_infrastructure.Services.Alpha.{State, writer, stop_hook, new_app}
use go_infrastructure.Services.Process.{AppOption, Host}
use go_infrastructure.Services.Alpha.Main.{Flags, Served, Hook}
use go_infrastructure.Services.Alpha.Stopped.{hooks_of, hooked}
use go_infrastructure.Services.Alpha.Drain.{app, done, stops, new_app-drains}
use go_infrastructure.Version.{Info}

abbrev K : Kratos sample (World State)
K = sample_kratos

abbrev encode_error : SampleError → World State → World State
encode_error e w = w

abbrev R : Type 0
R = Raw sample K encode_error

abbrev Setting : Type 0
Setting = ServerOption ℕ ℕ (Middleware sample (World State))

abbrev T : Transports Setting R
T = sample_transports

abbrev silent : R
silent ctx w = (served, w)

abbrev profiling : Pprof R
profiling = record {
  index = silent;
  cmdline = silent;
  profile = silent;
  symbol = silent;
  trace = silent;
}

abbrev options_of : List Setting → List Setting
options_of os = os

abbrev boxed : Context ℕ → ℕ
boxed ctx = 4

abbrev encode : Ready → GoString
encode r = codes "ready"

abbrev marshal : Info → GoString
marshal i = i.name

abbrev info : Info
info = record {
  name = codes "kris-alpha";
  version = codes "dev";
  commit = [];
  build_time = [];
  go = [];
}

abbrev world : Drainer → World State
world d = record {
  reply_header = [];
  request_header = [];
  uuids = λ n. codes "uuid";
  drawn = 0;
  clock = 5;
  requests = [];
  latencies = [];
  panics = [];
  log = [];
  rest = record { drainer = d; out = record { header = []; status = none; body = [] } };
}

abbrev started : World State
started = world (new_drainer (pos 10))

abbrev caller : Context ℕ
caller = record { server = none; client = none; span = none; peer = none; values = [] }

abbrev oh : T.Server
oh =
    (app sample K encode_error options_of T boxed encode marshal (codes "go1.24") silent profiling
      (codes ":50051") (codes ":8080") (codes ":8081") (pos 10) info).1.oh

-- The hook run twice.
abbrev stopped_twice : World State
stopped_twice = (stop_hook (stop_hook started).1).1

new_app-drains_example :
    (ready health : R) × (T.route_of oh (codes "/readyz") ≡ some ready)
    × (T.route_of oh (codes "/healthz") ≡ some health)
    × ((writer.response (ready caller started).1).status ≡ some 200)
    × ((writer.response (ready caller stopped_twice).1).status ≡ some 503)
    × ((writer.response (health caller stopped_twice).1).status ≡ some 200)
unfolding new_app stop_hook
new_app-drains_example =
    new_app-drains sample K encode_error options_of T boxed encode marshal (codes "go1.24") silent
      profiling (codes ":50051") (codes ":8080") (codes ":8081") (pos 10) info caller started
      stopped_twice refl (stops (stop_hook started).1 stopped_twice (done stopped_twice)) refl refl

-- A kratos that calls the hooks and does nothing else.
abbrev Listener : Type 0
Listener = Served (List Setting) T.Server

abbrev host : Host ℕ (AppOption ℕ Listener Hook) (World State)
host = record {
  hostname = codes "pod-7";
  stdout = 1;
  run = λ opts w. (none, hooked (hooks_of opts) w);
  fatal = λ msg w. w;
}

abbrev parsed : Flags
parsed = record {
  grpc_addr = codes ":50051";
  http_addr = codes ":8080";
  other_addr = codes ":8081";
  drain_grace = pos 10;
}

abbrev stopped : World State
stopped = world (record { delay = pos 10; draining = true })
