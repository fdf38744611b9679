-- ===== src/Services/Alpha/Stopped.antt =====
-- The end of kris-alpha's `main`, with the hooks that its app is given.
use go_infrastructure.Prelude.{◌≡◌, none, List, [], ◌∷◌, GoString}
use go_infrastructure.Kratos.Defs.{Platform}
use go_infrastructure.Middleware.Handler.{Context, Middleware}
use go_infrastructure.Middleware.World.{World}
use go_infrastructure.Server.Chain.{Kratos, ServerOption}
use go_infrastructure.Server.Probe.{Ready, new_drainer}
use go_infrastructure.Server.Listen.{Transports, Pprof, Raw}
use go_infrastructure.Services.Process.{Build, AppOption, before_stop_is, Host}
use go_infrastructure.Services.Alpha.{State, drainer_of}
use go_infrastructure.Services.Alpha.Drain.{app}
use go_infrastructure.Services.Alpha.Main.{Flags, Served, Hook, app_options, info, installed}
use go_infrastructure.Version.{Info}

module _ {Out Server : Type 0} where
  -- The hooks among the options of an app.
  abbrev pub hooks_of : List (AppOption Out Server Hook) → List Hook
  hooks_of [] = []
  hooks_of (before_stop_is h ∷ os) = h ∷ hooks_of os
  hooks_of (o ∷ os) = hooks_of os

-- The hooks run one after the other, before anything else stops.
abbrev pub hooked : List Hook → World State → World State
hooked [] w = w
hooked (h ∷ hs) w = hooked hs (h w).1

-- What kratos documents of `Run`: an app that ends without an error has, after a time in which its
-- servers ran, called its hooks in order and then stopped the servers. The servers and their stop
-- leave the drainer.
unfoldable pub Stops :
    {Out Server : Type 0} → Host Out (AppOption Out Server Hook) (World State) → Type 0
Stops {Out} {Server} host =
    (opts : List (AppOption Out Server Hook)) (w w2 : World State)
    → host.run opts w ≡ (none, w2)
    → (w1 : World State) × (drainer_of w1 ≡ drainer_of w)
      × (drainer_of w2 ≡ drainer_of (hooked (hooks_of opts) w1))

module _ (P : Platform) (K : Kratos P (World State))
    (encode_error : P.Err → World State → World State) {Grpc Tls Filter Out : Type 0}
    (new_grpc : List (ServerOption Tls Filter (Middleware P (World State))) → Grpc)
    (T : Transports (ServerOption Tls Filter (Middleware P (World State))) (Raw P K encode_error))
    (host : Host Out (AppOption Out (Served Grpc T.Server) Hook) (World State))
    (boxed : Context P.Any → P.Any) (encode : Ready → GoString) (marshal : Info → GoString)
    (go : GoString) (metrics : Raw P K encode_error) (profiling : Pprof (Raw P K encode_error))
    (b : Build) (f : Flags) where
  -- What `main` gives to kratos.
  abbrev pub given : List (AppOption Out (Served Grpc T.Server) Hook)
  given =
      app_options P K encode_error new_grpc T host boxed encode marshal go metrics profiling b f
        (app P K encode_error new_grpc T boxed encode marshal go metrics profiling f.grpc_addr
          f.http_addr f.other_addr f.drain_grace
          (info P K encode_error new_grpc T host boxed encode marshal go metrics profiling b f)).1

  abbrev pub start : World State → World State
  start w =
      installed P K encode_error new_grpc T host boxed encode marshal go metrics profiling b f
        (new_drainer f.drain_grace) w
