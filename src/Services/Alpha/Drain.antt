-- ===== src/Services/Alpha/Drain.antt =====
-- The shutdown of kris-alpha as its load balancer sees it.
use go_infrastructure.Prelude.{
  true, ◌≡◌, ap, ◌∙◌, none, some, List, [], ◌∷◌, ℤ, GoString, codes, lookup, eq_str,
}
use go_infrastructure.Kratos.Defs.{Platform}
use go_infrastructure.Middleware.Handler.{Context, Middleware}
use go_infrastructure.Middleware.World.{World}
use go_infrastructure.Server.Chain.{Kratos, ServerOption}
use go_infrastructure.Server.Probe.{Ready, Drainer}
use go_infrastructure.Server.Probe.Drained.{
  draining-unavailable, before_stop-draining, new_drainer-ready,
}
use go_infrastructure.Server.Listen.{Transports, Pprof, Raw, BizHttpServer, readyz, health_handler}
use go_infrastructure.Server.Listen.Sidecar.{readyz_status, health_status, sidecar-routes}
use go_infrastructure.Services.Alpha.{
  State, App, writer, drainer_of, probes, stop_hook, listen_at, version_route, new_app,
}
use go_infrastructure.Version.{Info}

-- How the process goes on: by steps that leave its drainer, as the requests do, and by the hook,
-- which may run again.
pub data Run : World State → World State → Type 0 where
  done : (w : World State) → Run w w
  goes_on : (w w1 w2 : World State) → drainer_of w1 ≡ drainer_of w → Run w1 w2 → Run w w2
  stops : (w w2 : World State) → Run (stop_hook w).1 w2 → Run w w2

-- Draining is for good.
Run-draining :
    (w w' : World State)
    → Run w w'
    → (drainer_of w).draining ≡ true
    → (drainer_of w').draining ≡ true
unfolding stop_hook
Run-draining w w' (done _) d = d
Run-draining w w' (goes_on _ w1 _ e r) d = Run-draining w1 w' r (rw e d)
Run-draining w w' (stops _ _ r) d =
    Run-draining (stop_hook w).1 w' r (before_stop-draining (drainer_of w))

module _ (P : Platform) (K : Kratos P (World State))
    (encode_error : P.Err → World State → World State) {Grpc Tls Filter : Type 0}
    (new_grpc : List (ServerOption Tls Filter (Middleware P (World State))) → Grpc)
    (T : Transports (ServerOption Tls Filter (Middleware P (World State))) (Raw P K encode_error))
    (boxed : Context P.Any → P.Any) (encode : Ready → GoString) (marshal : Info → GoString)
    (go : GoString) (metrics : Raw P K encode_error) (profiling : Pprof (Raw P K encode_error))
    (grpc_addr http_addr other_addr : GoString) (drain_grace : ℤ) (info : Info) where
  open P use {Any}

  abbrev pub app : Drainer × App Grpc (BizHttpServer P K encode_error T) T.Server
  app =
      new_app P K encode_error new_grpc T boxed encode marshal go metrics profiling grpc_addr
        http_addr other_addr drain_grace info

  -- A new kris-alpha is ready, and from its stop hook on it is not but still alive: with
  -- the drainer that it starts with /readyz answers 200, and after the hook and any further
  -- steps of the process /readyz answers 503 and /healthz 200, on the same handlers of its sidecar.
  pub new_app-drains :
      (ctx : Context Any) (w w' : World State)
      → drainer_of w ≡ app.0
      → Run (app.1.before_stop w).1 w'
      → (writer.response w).status ≡ none
      → (writer.response w').status ≡ none
      → (ready health : Raw P K encode_error) × (T.route_of app.1.oh (codes "/readyz") ≡ some ready)
        × (T.route_of app.1.oh (codes "/healthz") ≡ some health)
        × ((writer.response (ready ctx w).1).status ≡ some 200)
        × ((writer.response (ready ctx w').1).status ≡ some 503)
        × ((writer.response (health ctx w').1).status ≡ some 200)
  unfolding new_app stop_hook lookup eq_str
  new_app-drains ctx w w' d d' f f' =
      let later = (codes "/version", version_route P K encode_error marshal go info) ∷ [] in
      let cfg = listen_at other_addr in
      let at = λ (path : GoString).
        (sidecar-routes P K encode_error T writer encode metrics profiling cfg later probes
          path).0 in
      let status = λ (v : World State) (fresh : (writer.response v).status ≡ none).
        (readyz_status P K encode_error T writer encode metrics profiling cfg probes ctx v
          fresh).1 in
      (
        readyz P K encode_error writer encode probes,
        health_handler P K encode_error writer,
        at (codes "/readyz"),
        at (codes "/healthz"),
        status w f ∙ ap some (new_drainer-ready drainer_of w drain_grace [] d tt),
        status w' f'
            ∙ ap some (
                draining-unavailable drainer_of w' [] []
                  (Run-draining _ w' d' (before_stop-draining (drainer_of w)))),
        (health_status P K encode_error T writer encode metrics profiling cfg ctx w' f').1,
      )
