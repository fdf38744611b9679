-- ===== src/Services/Alpha.antt =====
-- kris-alpha/cmd/alpha/main.go: gRPC, HTTP and the sidecar on the default chain, with a drainer.
-- Flags, the host name and the run of the app are in the module Main.
pub mod Drain
pub mod Main
pub mod Stopped
mod Tests
use go_infrastructure.Prelude.{refl, Option, none, some, List, [], ◌∷◌, ℤ, pos, GoString, codes}
use go_infrastructure.Kratos.Defs.{Platform}
use go_infrastructure.Middleware.Handler.{Context, Middleware}
use go_infrastructure.Middleware.World.{World}
use go_infrastructure.Server.Response.{Response, Writer, write}
use go_infrastructure.Server.Chain.{Kratos, HttpConfig, ServerOption, served}
use go_infrastructure.Server.Probe.{
  Pinger, Ready, Drainer, Wait, new_drainer, before_stop, readiness_pinger,
}
use go_infrastructure.Server.Listen.{
  Transports, Pprof, Raw, GrpcConfig, BizHttpServer, new_grpc_server, new_biz_http_server,
  new_other_http_server,
}
use go_infrastructure.Server.Listen.Business.{handled}
use go_infrastructure.Version.{Info}
use go_infrastructure.Version

-- What the service adds to the world: its drainer and the response of a request.
pub record State : Type 0 where
  pub drainer : Drainer
  pub out : Response

abbrev pub writer : Writer (World State)
writer = record {
  response = λ w. w.rest.out;
  set_response = λ r w. record w { rest = record (w.rest) { out = r } };
  response-set_response = λ r w. refl;
}

abbrev pub on_response : (Response → Response) → World State → World State
on_response f w = writer.set_response (f (writer.response w)) w

pub record App (Grpc Biz Other : Type 0) : Type 0 where
  pub gs : Grpc
  pub hs : Biz
  pub oh : Other
  pub before_stop : World State → Wait × World State

abbrev pub listen_at : {Tls Filter : Type 0} → GoString → HttpConfig Tls Filter
listen_at addr = record {
  network = codes "tcp";
  addr = addr;
  timeout = pos 0;
  filters = [];
  tls_config = none;
}

-- `drainer.BeforeStop`, on the drainer of the process.
pub stop_hook : World State → Wait × World State
stop_hook w =
    let (wait, d) = before_stop w.rest.drainer in
    (wait, record w { rest = record (w.rest) { drainer = d } })

abbrev pub drainer_of : World State → Drainer
drainer_of w = w.rest.drainer

abbrev pub probes : Option (List (Pinger (World State)))
probes = some (readiness_pinger drainer_of ∷ [])

module _ (P : Platform) (K : Kratos P (World State))
    (encode_error : P.Err → World State → World State) where
  pub alpha_ok : Raw P K encode_error
  alpha_ok ctx w = (served, on_response (write (codes "kris-alpha ok")) w)

  pub version_route : (Info → GoString) → GoString → Info → Raw P K encode_error
  version_route marshal go i ctx w = (served, on_response (Version.handler marshal go i) w)

  -- `newApp`, with the drainer that it makes; `new_grpc` is `grpc.NewServer`, and the last
  -- arguments are the flags and the build variables.
  pub new_app :
      {Grpc Tls Filter : Type 0}
      → (List (ServerOption Tls Filter (Middleware P (World State))) → Grpc)
      → (T : Transports
          (ServerOption Tls Filter (Middleware P (World State)))
          (Raw P K encode_error))
      → (Context P.Any → P.Any)
      → (Ready → GoString)
      → (Info → GoString)
      → GoString
      → Raw P K encode_error
      → Pprof (Raw P K encode_error)
      → (grpc_addr http_addr other_addr : GoString) → (drain_grace : ℤ) → Info
      → Drainer × App Grpc (BizHttpServer P K encode_error T) T.Server
  new_app {Grpc} {Tls} {Filter} new_grpc T boxed encode marshal go metrics profiling grpc_addr
        http_addr other_addr drain_grace info =
      let gs =
        new_grpc_server P K {Tls = Tls} {Filter = Filter} new_grpc
          (record { network = codes "tcp"; addr = grpc_addr; timeout = pos 0; tls_config = none })
          none [] in
      let hs =
        new_biz_http_server P K encode_error T (listen_at http_addr)
          (some (handled P K encode_error T boxed ((codes "/", alpha_ok) ∷ []))) [] in
      let oh = T.handle_func (codes "/version") (version_route marshal go info) (
        new_other_http_server P K encode_error T writer encode metrics profiling
          (listen_at other_addr) probes) in
      (new_drainer drain_grace, record { gs = gs; hs = hs; oh = oh; before_stop = stop_hook })
