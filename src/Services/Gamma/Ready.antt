-- ===== src/Services/Gamma/Ready.antt =====
-- The readiness of kris-gamma by the state of its upstream connection.
use go_infrastructure.Prelude.{
  ℕ, ◌≡◌, refl, ap, ◌∙◌, arith, true, false, Bool, ◌||◌, none, some, List, [], ◌∷◌, GoString, codes,
  lookup, eq_str, if◌then◌else◌,
}
use go_infrastructure.Kratos.Defs.{Platform}
use go_infrastructure.Middleware.Handler.{Context, Middleware}
use go_infrastructure.Middleware.World.{World}
use go_infrastructure.Middleware.Timeout
use go_infrastructure.Client.Dial.{Opened, opened, not_opened, Dialer}
use go_infrastructure.Client.Grpc.{ClientOption, new_grpc}
use go_infrastructure.Server.Response.{Writer}
use go_infrastructure.Server.Chain.{Kratos, ServerOption}
use go_infrastructure.Server.Probe
use go_infrastructure.Server.Probe.{ready_handler}
use go_infrastructure.Server.Probe.Readiness.{ready_handler_lem}
use go_infrastructure.Server.Listen.{Transports, Pprof, Raw, readyz}
use go_infrastructure.Server.Listen.Sidecar.{readyz_status, sidecar-routes}
use go_infrastructure.Services.Gamma.{
  Connectivity, is_ready, is_idle, upstream_pinger, probes_of, upstream_config, listen_at,
  version_route, start,
}
use go_infrastructure.Version.{Info}

-- The status of /readyz: 503 exactly where there is a connection that is neither ready nor idle.
abbrev pub expected : {Conn W : Type 0} → (Conn → W → Connectivity) → Opened Conn → W → ℕ
expected get_state (opened conn) w =
    if is_ready (get_state conn w) || is_idle (get_state conn w) then 200 else 503
expected get_state (not_opened err) w = 200

pinger-AllPass :
    {Conn W : Type 0} (get_state : Conn → W → Connectivity) (conn : Conn) (w : W) (usable : Bool)
    → (is_ready (get_state conn w) || is_idle (get_state conn w)) ≡ usable
    → (ready_handler (some (upstream_pinger get_state conn ∷ [])) w).status
      ≡ (if usable then 200 else 503)
unfolding upstream_pinger
pinger-AllPass get_state conn w true e =
    (ready_handler_lem w (upstream_pinger get_state conn ∷ []) []).0.1 (ground arith, tt)
pinger-AllPass get_state conn w false e =
    (ready_handler_lem w (upstream_pinger get_state conn ∷ []) []).1.0
      (λ h. absurd (ground (arith, h.0)))

probes_of-expected :
    {Conn W : Type 0} (get_state : Conn → W → Connectivity) (conn : Opened Conn) (w : W)
    → (ready_handler (some (probes_of get_state conn)) w).status ≡ expected get_state conn w
unfolding probes_of
probes_of-expected get_state (opened conn) w = pinger-AllPass get_state conn w _ refl
probes_of-expected get_state (not_opened err) w = (ready_handler_lem w [] []).0.1 tt

module _ (P : Platform) {R Extra Conn Grpc Tls Filter : Type 0} (K : Kratos P (World R))
    (encode_error : P.Err → World R → World R) (out : Writer (World R))
    (net : Dialer (ClientOption P Extra) Conn (World R)) (get_state : Conn → World R → Connectivity)
    (race : Timeout.Race P (World R))
    (new_grpc_transport : List (ServerOption Tls Filter (Middleware P (World R))) → Grpc)
    (T : Transports (ServerOption Tls Filter (Middleware P (World R))) (Raw P K encode_error)) where
  -- A started kris-gamma answers /readyz with 200 while the connection that it opened is ready or
  -- idle and with 503 while it is in any other state; where the dial at the start failed, it
  -- answers 200 at all times.
  pub start-readiness :
      (encode : Probe.Ready → GoString) (marshal : Info → GoString) (go : GoString)
      (metrics : Raw P K encode_error) (profiling : Pprof (Raw P K encode_error))
      (warn : GoString → World R → World R) (upstream grpc_addr other_addr : GoString) (info : Info)
      (ctx : Context P.Any) (w0 w : World R)
      → (out.response w).status ≡ none
      → (ready : Raw P K encode_error) × (T.route_of
            (start P K encode_error out net get_state race new_grpc_transport T encode marshal go
              metrics profiling warn upstream grpc_addr other_addr info w0).0.oh
            (codes "/readyz")
          ≡ some ready)
        × ((out.response (ready ctx w).1).status
            ≡ some (expected get_state (new_grpc P net (upstream_config upstream) [] w0).0 w))
  unfolding start lookup eq_str
  start-readiness encode marshal go metrics profiling warn upstream grpc_addr other_addr info ctx w0
        w fresh =
      let conn = (new_grpc P net (upstream_config upstream) [] w0).0 in
      let probes = some (probes_of get_state conn) in
      let cfg = listen_at other_addr in
      let version =
        version_route P K encode_error out net get_state race new_grpc_transport T marshal go
          info in
      (
        readyz P K encode_error out encode probes,
        (sidecar-routes P K encode_error T out encode metrics profiling cfg
            ((codes "/version", version) ∷ []) probes (codes "/readyz")).0,
        (readyz_status P K encode_error T out encode metrics profiling cfg probes ctx w fresh).1
            ∙ ap some (probes_of-expected get_state conn w),
      )
