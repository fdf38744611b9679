-- ===== src/Services/Gamma.antt =====
-- kris-gamma/cmd/gamma/main.go: a service that dials another and is ready only while that connection
-- is. Flags, the host name and the run of the app are in the module Main.
pub mod Ready
pub mod Main
pub mod Overdue
mod Tests
use go_infrastructure.Prelude.{
  Bool, true, false, not, ◌&&◌, ◌≡◌, refl, Option, none, some, List, [], ◌∷◌, ◌++◌, ℤ, pos,
  GoString, codes, if◌then◌else◌,
}
use go_infrastructure.Kratos.Defs.{Platform}
use go_infrastructure.Middleware.Handler.{Context, Middleware}
use go_infrastructure.Middleware.World.{World}
use go_infrastructure.Middleware.Timeout
use go_infrastructure.Client.Dial.{Opened, opened, not_opened, Dialer}
use go_infrastructure.Client.Grpc.{Config, ClientOption, new_grpc, grpc_cleanup}
use go_infrastructure.Server.Response.{Writer, write}
use go_infrastructure.Server.Chain.{Kratos, HttpConfig, ServerOption, served}
use go_infrastructure.Server.Probe
use go_infrastructure.Server.Probe.{Pinger}
use go_infrastructure.Server.Listen.{Transports, Pprof, Raw, new_grpc_server, new_other_http_server}
use go_infrastructure.Version.{Info}
use go_infrastructure.Version

-- The states of a gRPC connection.
pub data Connectivity : Type 0 where
  idle connecting ready transient_failure shutdown : Connectivity

abbrev pub is_ready : Connectivity → Bool
is_ready ready = true
is_ready _ = false

abbrev pub is_idle : Connectivity → Bool
is_idle idle = true
is_idle _ = false

abbrev pub err_upstream_not_ready : GoString
err_upstream_not_ready = codes "upstream conn not ready"

-- `get_state` is `conn.GetState()`.
pub upstream_pinger : {Conn W : Type 0} → (Conn → W → Connectivity) → Conn → Pinger W
upstream_pinger get_state conn = record {
  name = codes "upstream";
  ping = λ w.
      let s = get_state conn w in
      if not (is_ready s) && not (is_idle s) then some err_upstream_not_ready else none;
}

-- The probes after the dial; a failed dial leaves none.
pub probes_of : {Conn W : Type 0} → (Conn → W → Connectivity) → Opened Conn → List (Pinger W)
unfolding upstream_pinger
probes_of get_state (opened conn) = upstream_pinger get_state conn ∷ []
probes_of get_state (not_opened err) = []

pub upstream_config : GoString → Config
upstream_config upstream = record {
  endpoint = upstream;
  timeout = pos 2_000_000_000;
  dial_timeout = pos 3_000_000_000;
  no_circuit_breaker = false;
  retry = record { max_attempts = pos 0; initial_backoff = pos 0; max_backoff = pos 0 };
}

abbrev pub listen_at : {Tls Filter : Type 0} → GoString → HttpConfig Tls Filter
listen_at addr = record {
  network = codes "tcp";
  addr = addr;
  timeout = pos 0;
  filters = [];
  tls_config = none;
}

-- The servers of the service, and what its `main` defers.
pub record Started (Grpc Other W : Type 0) : Type 0 where
  pub gs : Grpc
  pub oh : Other
  pub cleanup : W → W

module _ (P : Platform) {R Extra Conn Grpc Tls Filter : Type 0} (K : Kratos P (World R))
    (encode_error : P.Err → World R → World R) (out : Writer (World R))
    (net : Dialer (ClientOption P Extra) Conn (World R)) (get_state : Conn → World R → Connectivity)
    (race : Timeout.Race P (World R))
    (new_grpc_transport : List (ServerOption Tls Filter (Middleware P (World R))) → Grpc)
    (T : Transports (ServerOption Tls Filter (Middleware P (World R))) (Raw P K encode_error)) where
  pub version_route : (Info → GoString) → GoString → Info → Raw P K encode_error
  version_route marshal go i ctx w =
      (served, out.set_response (Version.handler marshal go i (out.response w)) w)

  -- The deferred cleanup: that of the connection, or none after a failed dial.
  cleanup_of : Opened Conn → World R → World R
  cleanup_of (opened conn) w = grpc_cleanup P net conn w
  cleanup_of (not_opened err) w = w

  -- The warning of `main` after a failed dial, which goes on.
  warned : (GoString → World R → World R) → Opened Conn → World R → World R
  warned warn (opened conn) w = w
  warned warn (not_opened err) w = warn err w

  timeout_mw : Middleware P (World R)
  timeout_mw = Timeout.server_with P race (Timeout.with_timeout P (pos 2_000_000_000) ∷ [])

  pub start :
      (encode : Probe.Ready → GoString) (marshal : Info → GoString) (go : GoString)
      (metrics : Raw P K encode_error) (profiling : Pprof (Raw P K encode_error))
      (warn : GoString → World R → World R) (upstream grpc_addr other_addr : GoString) (info : Info)
      → World R
      → Started Grpc T.Server (World R) × World R
  unfolding cleanup_of warned timeout_mw
  start encode marshal go metrics profiling warn upstream grpc_addr other_addr info w =
      let (conn, w1) = new_grpc P net (upstream_config upstream) [] w in
      (
        record {
          gs =
              new_grpc_server P K new_grpc_transport
                (record {
                  network = codes "tcp";
                  addr = grpc_addr;
                  timeout = pos 0;
                  tls_config = none;
                })
                none (timeout_mw ∷ []);
          oh = T.handle_func (codes "/version") (version_route marshal go info) (
              new_other_http_server P K encode_error T out encode metrics profiling
                (listen_at other_addr) (some (probes_of get_state conn)));
          cleanup = cleanup_of conn;
        },
        warned warn conn w1,
      )
