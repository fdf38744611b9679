-- ===== src/Services/Beta/Main.antt =====
-- kris-beta/cmd/beta/main.go: flags, build variables and `main` as a whole.
use go_infrastructure.Prelude.{Option, none, some, List, [], ◌∷◌, GoString, codes}
use go_infrastructure.Kratos.Defs.{Platform}
use go_infrastructure.Middleware.Handler.{Context, Middleware}
use go_infrastructure.Middleware.World.{World}
use go_infrastructure.Middleware.Cors
use go_infrastructure.Middleware.Ratelimit.{Net, Bucket}
use go_infrastructure.Log.Std
use go_infrastructure.Server.Chain.{Kratos, ServerOption}
use go_infrastructure.Server.Probe.{Ready}
use go_infrastructure.Server.Listen.{Transports, Pprof, Raw}
use go_infrastructure.Services.Process.{
  Flag, string_var, Build, AppOption, id_is, name_is, version_is, logger_is, servers_are, Host,
  Exit, run_app,
}
use go_infrastructure.Services.Beta.{State, new_hs, new_oh}
use go_infrastructure.Version.{Info}

abbrev pub build : Build
build = record { name = codes "kris-beta"; version = codes "dev"; commit = []; build_time = [] }

-- What `init` declares.
abbrev pub flags : List Flag
flags =
    string_var (codes "http") (codes ":8082") (codes "business HTTP listen address")
    ∷ string_var (codes "other") (codes ":8083") (codes "sidecar HTTP listen address")
    ∷ []

-- The values of the flags after `flag.Parse`.
pub record Flags : Type 0 where
  pub http_addr : GoString
  pub other_addr : GoString

module _ (N : Net) (P : Platform) (K : Kratos P (World (State N)))
    (encode_error : P.Err → World (State N) → World (State N)) {Tls Out Hook : Type 0}
    (T : Transports
      (ServerOption Tls Cors.Options (Middleware P (World (State N))))
      (Raw P K encode_error))
    (host : Host Out (AppOption Out T.Server Hook) (World (State N)))
    (boxed : Context P.Any → P.Any) (encode : Ready → GoString) (marshal : Info → GoString)
    (go : GoString) (metrics : Raw P K encode_error) (profiling : Pprof (Raw P K encode_error))
    (b : Build) (f : Flags) where
  abbrev pub info : Info
  info = record {
    name = b.name;
    version = b.version;
    commit = b.commit;
    build_time = b.build_time;
    go = [];
  }

  abbrev pub app_options : T.Server → T.Server → List (AppOption Out T.Server Hook)
  app_options hs oh =
      id_is host.hostname
      ∷ name_is b.name
      ∷ version_is b.version
      ∷ logger_is (Std.new host.stdout b.name b.version host.hostname)
      ∷ servers_are (hs ∷ oh ∷ [])
      ∷ []

  -- The bucket of the process is the one that `ratelimit.Server` makes.
  abbrev pub installed : Bucket N → World (State N) → World (State N)
  installed bucket w = record w { rest = record (w.rest) { bucket = bucket } }

  -- `none` is the panic of `auth.Server`.
  pub main : World (State N) → Option (Exit (World (State N)))
  main w = elim (new_hs N P K encode_error T boxed f.http_addr) [
    | none ↦ none
    | some (bucket, hs) ↦
        let oh =
          new_oh N P K encode_error T encode marshal go metrics profiling f.other_addr info in
        some (run_app host (λ w1. w1) (app_options hs.s oh) (installed bucket w))
  ]
