-- ===== src/Services/Gamma/Main.antt =====
-- kris-gamma/cmd/gamma/main.go: flags, build variables and `main` as a whole.
use go_infrastructure.Prelude.{List, [], ◌∷◌, GoString, codes}
use go_infrastructure.Kratos.Defs.{Platform}
use go_infrastructure.Middleware.Handler.{Middleware}
use go_infrastructure.Middleware.World.{World}
use go_infrastructure.Middleware.Timeout
use go_infrastructure.Client.Dial.{Dialer}
use go_infrastructure.Client.Grpc.{ClientOption}
use go_infrastructure.Log.Std
use go_infrastructure.Server.Response.{Writer}
use go_infrastructure.Server.Chain.{Kratos, ServerOption}
use go_infrastructure.Server.Probe.{Ready}
use go_infrastructure.Server.Listen.{Transports, Pprof, Raw}
use go_infrastructure.Services.Process.{
  Flag, string_var, Build, AppOption, id_is, name_is, version_is, logger_is, servers_are, Host,
  Exit, run_app,
}
use go_infrastructure.Services.Gamma.{Connectivity, Started, start}
use go_infrastructure.Version.{Info}

abbrev pub build : Build
build = record { name = codes "kris-gamma"; version = codes "dev"; commit = []; build_time = [] }

-- What `init` declares.
abbrev pub flags : List Flag
flags =
    string_var (codes "grpc") (codes ":50053") (codes "gRPC listen address")
    ∷ string_var (codes "other") (codes ":8085") (codes "sidecar HTTP listen address")
    ∷ string_var (codes "upstream") (codes "kris-alpha:50051")
        (codes "downstream gRPC endpoint to dial")
    ∷ []

-- The values of the flags after `flag.Parse`.
pub record Flags : Type 0 where
  pub grpc_addr : GoString
  pub other_addr : GoString
  pub upstream : GoString

-- A server that is given to the app.
pub data Served (Grpc Other : Type 0) : Type 0 where
  grpc : Grpc → Served Grpc Other
  http : Other → Served Grpc Other

module _ (P : Platform) {R Extra Conn Grpc Tls Filter Out Hook : Type 0} (K : Kratos P (World R))
    (encode_error : P.Err → World R → World R) (out : Writer (World R))
    (net : Dialer (ClientOption P Extra) Conn (World R)) (get_state : Conn → World R → Connectivity)
    (race : Timeout.Race P (World R))
    (new_grpc_transport : List (ServerOption Tls Filter (Middleware P (World R))) → Grpc)
    (T : Transports (ServerOption Tls Filter (Middleware P (World R))) (Raw P K encode_error))
    (host : Host Out (AppOption Out (Served Grpc T.Server) Hook) (World R))
    (encode : Ready → GoString) (marshal : Info → GoString) (go : GoString)
    (metrics : Raw P K encode_error) (profiling : Pprof (Raw P K encode_error))
    (warn : GoString → World R → World R) (b : Build) (f : Flags) where
  abbrev pub info : Info
  info = record {
    name = b.name;
    version = b.version;
    commit = b.commit;
    build_time = b.build_time;
    go = [];
  }

  abbrev pub app_options : Grpc → T.Server → List (AppOption Out (Served Grpc T.Server) Hook)
  app_options gs oh =
      id_is host.hostname
      ∷ name_is b.name
      ∷ version_is b.version
      ∷ logger_is (Std.new host.stdout b.name b.version host.hostname)
      ∷ servers_are (grpc gs ∷ http oh ∷ [])
      ∷ []

  pub main : World R → Exit (World R)
  main w =
      let (started, w1) =
        start P K encode_error out net get_state race new_grpc_transport T encode marshal go metrics
          profiling warn f.upstream f.grpc_addr f.other_addr info w in
      run_app host started.cleanup (app_options started.gs started.oh) w1

  abbrev pub running : World R → List (AppOption Out (Served Grpc T.Server) Hook)
  running w =
      let s =
        (start P K encode_error out net get_state race new_grpc_transport T encode marshal go
          metrics profiling warn f.upstream f.grpc_addr f.other_addr info w).0 in
      app_options s.gs s.oh

  begun : World R → Started Grpc T.Server (World R) × World R
  begun w =
      start P K encode_error out net get_state race new_grpc_transport T encode marshal go metrics
        profiling warn f.upstream f.grpc_addr f.other_addr info w
