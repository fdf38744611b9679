-- ===== src/Services/Alpha/Main.antt =====
-- kris-alpha/cmd/alpha/main.go: flags, build variables and `main` as a whole.
use go_infrastructure.Prelude.{List, [], ◌∷◌, ℤ, pos, GoString, codes}
use go_infrastructure.Kratos.Defs.{Platform}
use go_infrastructure.Middleware.Handler.{Context, Middleware}
use go_infrastructure.Middleware.World.{World}
use go_infrastructure.Log.Std
use go_infrastructure.Server.Chain.{Kratos, ServerOption}
use go_infrastructure.Server.Probe.{Ready, Drainer, Wait}
use go_infrastructure.Server.Listen.{Transports, Pprof, Raw, BizHttpServer}
use go_infrastructure.Services.Process.{
  Flag, string_var, duration_var, Build, AppOption, id_is, name_is, version_is, logger_is,
  servers_are, before_stop_is, Host, Exit, run_app,
}
use go_infrastructure.Services.Alpha.{State, App, new_app}
use go_infrastructure.Version.{Info}

abbrev pub build : Build
build = record { name = codes "kris-alpha"; version = codes "dev"; commit = []; build_time = [] }

-- What `init` declares; a duration is in nanoseconds.
abbrev pub flags : List Flag
flags =
    string_var (codes "grpc") (codes ":50051") (codes "gRPC listen address")
    ∷ string_var (codes "http") (codes ":8080") (codes "business HTTP listen address")
    ∷ string_var (codes "other") (codes ":8081")
        (codes "sidecar HTTP listen address (healthz/metrics/pprof)")
    ∷ duration_var (codes "drain-grace") (pos 10_000_000_000)
        (codes "graceful-shutdown grace period: how long to fail /readyz before stopping")
    ∷ []

-- The values of the flags after `flag.Parse`.
pub record Flags : Type 0 where
  pub grpc_addr : GoString
  pub http_addr : GoString
  pub other_addr : GoString
  pub drain_grace : ℤ

-- A server that is given to the app.
pub data Served (Grpc Http : Type 0) : Type 0 where
  grpc : Grpc → Served Grpc Http
  http : Http → Served Grpc Http

-- A hook of the app.
abbrev pub Hook : Type 0
Hook = World State → Wait × World State

module _ (P : Platform) (K : Kratos P (World State))
    (encode_error : P.Err → World State → World State) {Grpc Tls Filter Out : Type 0}
    (new_grpc : List (ServerOption Tls Filter (Middleware P (World State))) → Grpc)
    (T : Transports (ServerOption Tls Filter (Middleware P (World State))) (Raw P K encode_error))
    (host : Host Out (AppOption Out (Served Grpc T.Server) Hook) (World State))
    (boxed : Context P.Any → P.Any) (encode : Ready → GoString) (marshal : Info → GoString)
    (go : GoString) (metrics : Raw P K encode_error) (profiling : Pprof (Raw P K encode_error))
    (b : Build) (f : Flags) where
  abbrev pub info : Info
  info = record {
    name = b.name;
    version = b.version;
    commit = b.commit;
    build_time = b.build_time;
    go = [];
  }

  -- The options that `newApp` gives to `kratos.New`.
  abbrev pub app_options :
      App Grpc (BizHttpServer P K encode_error T) T.Server
      → List (AppOption Out (Served Grpc T.Server) Hook)
  app_options app =
      id_is host.hostname
      ∷ name_is b.name
      ∷ version_is b.version
      ∷ logger_is (Std.new host.stdout b.name b.version host.hostname)
      ∷ servers_are (grpc app.gs ∷ http app.hs.s ∷ http app.oh ∷ [])
      ∷ before_stop_is app.before_stop
      ∷ []

  -- The drainer of the process is the one that `newApp` makes.
  abbrev pub installed : Drainer → World State → World State
  installed d w = record w { rest = record (w.rest) { drainer = d } }

  unfoldable pub main : World State → Exit (World State)
  main w =
      let (drainer, app) =
        new_app P K encode_error new_grpc T boxed encode marshal go metrics profiling f.grpc_addr
          f.http_addr f.other_addr f.drain_grace info in
      run_app host (λ w1. w1) (app_options app) (installed drainer w)
