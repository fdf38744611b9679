-- ===== src/Server/Listen.antt =====
-- pkg/runtime/server: the listeners of http.go, grpc.go and types.go with their routes, and the other
-- handlers of probe.go. The servers of kratos are a parameter.
pub mod Sidecar
pub mod Business
pub mod Sample
mod Tests
use go_infrastructure.Prelude.{
  ◌≡◌, Option, none, some, List, [], ◌∷◌, ◌++◌, ℤ, pos, GoString, codes, is_empty, ltb_ℤ, eq_str,
  if◌then◌else◌,
}
use go_infrastructure.Kratos.Defs.{Platform}
use go_infrastructure.Middleware.Handler.{Context, Middleware}
use go_infrastructure.Middleware.World.{World}
use go_infrastructure.Server.Response.{Writer, set_header, write_header, write}
use go_infrastructure.Server.Chain.{
  Kratos, server_chain, HttpConfig, ServerOption, middlewares_are, network_is, address_is,
  timeout_is, when, tls_option, base_http_opts, RawHandler, served, wrap_handler,
}
use go_infrastructure.Server.Probe.{Pinger, Ready, ready_handler}

-- A server of kratos with options `Opt` and handlers `H`: `NewServer`, the options it was
-- built with, and a route table that `HandleFunc` adds to and whose first entry for a path counts.
pub record Transports (Opt H : Type 0) : Type 1 where
  pub Server : Type 0
  pub new_server : List Opt → Server
  pub handle_func : GoString → H → Server → Server
  pub options : Server → List Opt
  pub options-new_server : (os : List Opt) → options (new_server os) ≡ os
  pub options-handle_func :
      (path : GoString) (h : H) (s : Server) → options (handle_func path h s) ≡ options s
  pub route_of : Server → GoString → Option H
  pub route_of-new_server : (os : List Opt) (path : GoString) → route_of (new_server os) path ≡ none
  pub route_of-handle_func :
      (path asked : GoString) (h : H) (s : Server)
      → route_of (handle_func path h s) asked ≡ elim (route_of s asked) [
        | some g ↦ some g
        | none ↦ if eq_str path asked then some h else none
      ]

-- The handlers of net/http/pprof.
pub record Pprof (H : Type 0) : Type 0 where
  pub index : H
  pub cmdline : H
  pub profile : H
  pub symbol : H
  pub trace : H

module _ {Opt H : Type 0} (T : Transports Opt H) where
  open T use {Server, handle_func}

  register_pprof : Pprof H → Server → Server
  register_pprof h s = handle_func (codes "/debug/pprof/trace") h.trace (
      handle_func (codes "/debug/pprof/symbol") h.symbol (
        handle_func (codes "/debug/pprof/profile") h.profile (
          handle_func (codes "/debug/pprof/cmdline") h.cmdline
            (handle_func (codes "/debug/pprof/") h.index s))))

module _ (P : Platform) {R : Type 0} (K : Kratos P (World R))
    (encode_error : P.Err → World R → World R) where
  open P use {Any}

  abbrev pub Raw : Type 0
  Raw = RawHandler P K encode_error

  module _ (out : Writer (World R)) where
    pub health_handler : Raw
    unfolding set_header write_header write
    health_handler ctx w = (
      served,
      out.set_response
          (write (codes "{\"status\":\"ok\"}") (
            write_header 200
              (set_header (codes "Content-Type") (codes "application/json") (out.response w))))
          w,
    )

    -- The handler that `readyHandler` makes; `encode` is the JSON of an answer.
    pub readyz : (Ready → GoString) → Option (List (Pinger (World R))) → Raw
    unfolding set_header write_header write
    readyz encode probes ctx w =
        let answer = ready_handler probes w in
        (
          served,
          out.set_response
              (write (encode answer) (
                write_header answer.status
                  (set_header (codes "Content-Type") answer.content_type (out.response w))))
              w,
        )

  module _ {Tls Filter : Type 0}
      (T : Transports (ServerOption Tls Filter (Middleware P (World R))) Raw) where
    open T use {Server, new_server, handle_func}

    build_http_no_middleware : HttpConfig Tls Filter → Server
    build_http_no_middleware cfg = new_server (base_http_opts cfg)

    -- `metrics` and `profiling` are the handlers of promhttp and net/http/pprof.
    pub new_other_http_server :
        Writer (World R)
        → (Ready → GoString)
        → Raw
        → Pprof Raw
        → HttpConfig Tls Filter
        → Option (List (Pinger (World R)))
        → Server
    unfolding build_http_no_middleware register_pprof
    new_other_http_server out encode metrics profiling cfg probes = register_pprof T profiling (
        handle_func (codes "/metrics") metrics (
          handle_func (codes "/readyz") (readyz out encode probes)
            (handle_func (codes "/healthz") (health_handler out) (build_http_no_middleware cfg))))

    pub record BizHttpServer : Type 0 where
      pub s : Server
      pub chain : List (Middleware P (World R))

    -- `HandleFunc` of a `BizHTTPServer`, and `Handle`, whose handler is a value with one method;
    -- `boxed` is the request of a context as a value.
    pub handle_wrapped : (Context Any → Any) → GoString → Raw → BizHttpServer → BizHttpServer
    handle_wrapped boxed path h b = record b {
      s = handle_func path (λ ctx w. wrap_handler P K encode_error b.chain (boxed ctx) h ctx w) b.s;
    }

    pub new_biz_http_server :
        HttpConfig Tls Filter
        → Option (BizHttpServer → BizHttpServer)
        → List (Middleware P (World R))
        → BizHttpServer
    new_biz_http_server cfg register extra =
        let mws = server_chain P K extra in
        let biz : BizHttpServer = record {
          s = new_server (middlewares_are mws ∷ base_http_opts cfg);
          chain = mws;
        } in
        elim register [ none ↦ biz | some f ↦ f biz ]

-- The configuration of a gRPC listener.
pub record GrpcConfig (Tls : Type 0) : Type 0 where
  pub network : GoString
  pub addr : GoString
  pub timeout : ℤ
  pub tls_config : Option Tls

module _ (P : Platform) {R : Type 0} (K : Kratos P (World R)) where
  -- The options of `NewGRPCServer`.
  unfoldable pub grpc_opts :
      {Tls Filter : Type 0}
      → GrpcConfig Tls
      → List (Middleware P (World R))
      → List (ServerOption Tls Filter (Middleware P (World R)))
  grpc_opts cfg extra =
      middlewares_are (server_chain P K extra) ∷ []
      ++ (if is_empty cfg.network then [] else network_is cfg.network ∷ [])
      ++ (if is_empty cfg.addr then [] else address_is cfg.addr ∷ [])
      ++ when (ltb_ℤ (pos 0) cfg.timeout) (timeout_is cfg.timeout)
      ++ tls_option cfg.tls_config

  unfoldable pub new_grpc_server :
      {Tls Filter Server : Type 0}
      → (List (ServerOption Tls Filter (Middleware P (World R))) → Server)
      → GrpcConfig Tls
      → Option (Server → Server)
      → List (Middleware P (World R))
      → Server
  unfolding grpc_opts
  new_grpc_server new_server cfg register extra =
      let srv = new_server (grpc_opts cfg extra) in elim register [ none ↦ srv | some f ↦ f srv ]
