-- ===== src/Server/Listen/Sidecar.antt =====
-- The sidecar listener: its routes and what they answer.
use go_infrastructure.Prelude.{
  ℕ, ◌≡◌, refl, ap, ◌∙◌, inl, inr, arith, Option, none, some, Option-cases, List, [], ◌∷◌, ◌++◌,
  GoString, codes, eq_str, lookup,
}
use go_infrastructure.Kratos.Defs.{Platform}
use go_infrastructure.Middleware.Handler.{Context, Middleware}
use go_infrastructure.Middleware.World.{World}
use go_infrastructure.Server.Response.{Writer, status-write_header}
use go_infrastructure.Server.Chain.{Kratos, HttpConfig, ServerOption, base_http_opts, served}
use go_infrastructure.Server.Probe.{
  Pinger, Ready, ready_handler, Drainer, before_stop, readiness_pinger,
}
use go_infrastructure.Server.Probe.Drained.{before_stop-unavailable}
use go_infrastructure.Server.Listen.{
  Transports, Pprof, register_pprof, Raw, health_handler, readyz, build_http_no_middleware,
  new_other_http_server,
}

module _ {Opt H : Type 0} (T : Transports Opt H) where
  open T use {Server, handle_func, route_of, options, options-handle_func, route_of-handle_func}

  -- The routes that a service adds to a server, in this order.
  abbrev pub registered : List (GoString × H) → Server → Server
  registered [] s = s
  registered ((path, h) ∷ later) s = registered later (handle_func path h s)

  -- A path that the server has keeps its handler, and any other gets that of its first
  -- registration.
  pub route_of-registered :
      (rs : List (GoString × H)) (asked : GoString) (s : Server)
      → route_of (registered rs s) asked
        ≡ elim (route_of s asked) [ some g ↦ some g | none ↦ lookup asked rs ]
  unfolding lookup
  route_of-registered [] asked s = elim (Option-cases (route_of s asked)) [
    | inl e ↦ rw e
    | inr (g, e) ↦ rw e
  ]
  route_of-registered ((path, h) ∷ rs) asked s =
      route_of-registered rs asked (handle_func path h s)
      ∙ ground (arith, route_of-handle_func path asked h s)

  pub registered-options :
      (rs : List (GoString × H)) (s : Server) → options (registered rs s) ≡ options s
  registered-options [] s = refl
  registered-options ((path, h) ∷ rs) s =
      rw (registered-options rs (handle_func path h s)) (options-handle_func path h s)

module _ (P : Platform) {R : Type 0} (K : Kratos P (World R))
    (encode_error : P.Err → World R → World R) {Tls Filter : Type 0}
    (T : Transports (ServerOption Tls Filter (Middleware P (World R))) (Raw P K encode_error))
    (out : Writer (World R)) (encode : Ready → GoString) (metrics : Raw P K encode_error)
    (profiling : Pprof (Raw P K encode_error)) (cfg : HttpConfig Tls Filter) where
  open P use {Any}
  open T use {Server, handle_func, route_of, options}

  -- The sidecar with routes that the service adds to it afterwards.
  abbrev pub sidecar :
      List (GoString × Raw P K encode_error) → Option (List (Pinger (World R))) → Server
  sidecar later probes =
      registered T later
        (new_other_http_server P K encode_error T out encode metrics profiling cfg probes)

  -- The routes of the sidecar itself.
  abbrev pub sidecar_routes :
      Option (List (Pinger (World R))) → List (GoString × Raw P K encode_error)
  sidecar_routes probes =
      (codes "/healthz", health_handler P K encode_error out)
      ∷ (codes "/readyz", readyz P K encode_error out encode probes)
      ∷ (codes "/metrics", metrics)
      ∷ (codes "/debug/pprof/", profiling.index)
      ∷ (codes "/debug/pprof/cmdline", profiling.cmdline)
      ∷ (codes "/debug/pprof/profile", profiling.profile)
      ∷ (codes "/debug/pprof/symbol", profiling.symbol)
      ∷ (codes "/debug/pprof/trace", profiling.trace)
      ∷ []

  sidecar-registered :
      (later : List (GoString × Raw P K encode_error)) (probes : Option (List (Pinger (World R))))
      → sidecar later probes
        ≡ registered T (sidecar_routes probes ++ later) (T.new_server (base_http_opts cfg))
  unfolding new_other_http_server build_http_no_middleware register_pprof
  sidecar-registered later probes = refl

  -- The sidecar's own routes come first, whatever the service registers afterwards, its handlers
  -- are the bare ones, behind no middleware, and its server has the options of the configuration
  -- and no others.
  pub sidecar-routes :
      (later : List (GoString × Raw P K encode_error)) (probes : Option (List (Pinger (World R))))
      (path : GoString)
      → (route_of (sidecar later probes) path ≡ lookup path (sidecar_routes probes ++ later))
        × (options (sidecar later probes) ≡ base_http_opts cfg)
  sidecar-routes later probes path = (
    rw (
      sidecar-registered later probes,
      route_of-registered T (sidecar_routes probes ++ later) path,
      T.route_of-new_server (base_http_opts cfg) path,
    ),
    rw (sidecar-registered later probes, registered-options T (sidecar_routes probes ++ later))
        (T.options-new_server (base_http_opts cfg)),
  )

  -- What a handler wrote as the status.
  abbrev pub status_of : World R → Option ℕ
  status_of w = (out.response w).status

  pub readyz_status :
      (probes : Option (List (Pinger (World R)))) (ctx : Context Any) (w : World R)
      → status_of w ≡ none
      → ((readyz P K encode_error out encode probes ctx w).0 ≡ served)
        × (status_of (readyz P K encode_error out encode probes ctx w).1
            ≡ some (ready_handler probes w).status)
  unfolding readyz
  readyz_status probes ctx w e = (
    refl,
    ap (λ r. r.status) (out.response-set_response _ w)
        ∙ (status-write_header _ _ (encode (ready_handler probes w)) _ (out.response w) e).0,
  )

  pub health_status :
      (ctx : Context Any) (w : World R)
      → status_of w ≡ none
      → ((health_handler P K encode_error out ctx w).0 ≡ served)
        × (status_of (health_handler P K encode_error out ctx w).1 ≡ some 200)
  unfolding health_handler
  health_status ctx w e = (
    refl,
    ap (λ r. r.status) (out.response-set_response _ w)
        ∙ (status-write_header _ _ (codes "{\"status\":\"ok\"}") _ (out.response w) e).0,
  )

  -- From the stop hook on, with the drainer's pinger among the probes, /readyz of the sidecar
  -- answers 503 and /healthz still 200, whatever else the service registers, the other probes say,
  -- and the middlewares of the business listener do.
  pub sidecar-draining :
      (of : World R → Drainer) (d : Drainer) (xs ys : List (Pinger (World R)))
      (later : List (GoString × Raw P K encode_error)) (ctx : Context Any) (w : World R)
      → of w ≡ (before_stop d).1
      → status_of w ≡ none
      → ((ready : Raw P K encode_error) × (route_of
              (sidecar later (some (xs ++ readiness_pinger of ∷ ys)))
              (codes "/readyz")
            ≡ some ready)
          × ((ready ctx w).0 ≡ served)
          × (status_of (ready ctx w).1 ≡ some 503))
        × ((health : Raw P K encode_error) × (route_of
                (sidecar later (some (xs ++ readiness_pinger of ∷ ys)))
                (codes "/healthz")
              ≡ some health)
            × ((health ctx w).0 ≡ served)
            × (status_of (health ctx w).1 ≡ some 200))
  unfolding lookup eq_str
  sidecar-draining of d xs ys later ctx w e fresh =
      let probes = some (xs ++ readiness_pinger of ∷ ys) in
      let (served_ready, status_ready) = readyz_status probes ctx w fresh in
      let (served_health, status_health) = health_status ctx w fresh in
      (
        (
          readyz P K encode_error out encode probes,
          (sidecar-routes later probes (codes "/readyz")).0,
          served_ready,
          status_ready ∙ ap some (before_stop-unavailable of w d xs ys e).0,
        ),
        (
          health_handler P K encode_error out,
          (sidecar-routes later probes (codes "/healthz")).0,
          served_health,
          status_health,
        ),
      )
