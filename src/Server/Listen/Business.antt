-- ===== src/Server/Listen/Business.antt =====
-- The business listener: its raw routes behind the default chain.
use mathlib.Core.Option
use go_infrastructure.Prelude.{◌≡◌, refl, arith, some, List, [], ◌∷◌, GoString, lookup}
use go_infrastructure.Kratos.Defs.{Platform}
use go_infrastructure.Middleware.Handler.{Context, Middleware}
use go_infrastructure.Middleware.World.{World}
use go_infrastructure.Server.Chain.{
  Kratos, server_chain, HttpConfig, ServerOption, middlewares_are, base_http_opts, wrap_handler,
}
use go_infrastructure.Server.Listen.{
  Transports, Raw, BizHttpServer, handle_wrapped, new_biz_http_server,
}
use go_infrastructure.Server.Listen.Sidecar.{registered, route_of-registered, registered-options}

module _ (P : Platform) {R : Type 0} (K : Kratos P (World R))
    (encode_error : P.Err → World R → World R) {Tls Filter : Type 0}
    (T : Transports (ServerOption Tls Filter (Middleware P (World R))) (Raw P K encode_error))
    (boxed : Context P.Any → P.Any) where
  open T use {Server, route_of, options}

  abbrev pub Routes : Type 0
  Routes = List (GoString × Raw P K encode_error)

  -- A raw handler behind the chain of a business listener.
  abbrev pub behind : List (Middleware P (World R)) → Raw P K encode_error → Raw P K encode_error
  behind mws h ctx w = wrap_handler P K encode_error mws (boxed ctx) h ctx w

  -- The calls of `HandleFunc` that a service makes, in this order.
  abbrev pub handled : Routes → BizHttpServer P K encode_error T → BizHttpServer P K encode_error T
  handled [] b = b
  handled ((path, h) ∷ rs) b = handled rs (handle_wrapped P K encode_error T boxed path h b)

  abbrev wrapped : List (Middleware P (World R)) → Routes → Routes
  wrapped mws [] = []
  wrapped mws ((path, h) ∷ rs) = (path, behind mws h) ∷ wrapped mws rs

  handled-registered :
      (rs : Routes) (b : BizHttpServer P K encode_error T)
      → ((handled rs b).s ≡ registered T (wrapped b.chain rs) b.s)
        × ((handled rs b).chain ≡ b.chain)
  unfolding handle_wrapped
  handled-registered [] b = (refl, refl)
  handled-registered ((path, h) ∷ rs) b =
      handled-registered rs (handle_wrapped P K encode_error T boxed path h b)

  lookup-wrapped :
      (mws : List (Middleware P (World R))) (path : GoString) (rs : Routes)
      → lookup path (wrapped mws rs) ≡ Option.map (behind mws) (lookup path rs)
  unfolding lookup
  lookup-wrapped mws path [] = refl
  lookup-wrapped mws path ((k, h) ∷ rs) = ground (arith, lookup-wrapped mws path rs)

  -- A business listener serves each path by the first handler that the service gave for it,
  -- behind the default chain and the service's own middlewares, and
  -- kratos gets the same chain for its native handlers, ahead of the configured options.
  pub business-routes :
      (cfg : HttpConfig Tls Filter) (extra : List (Middleware P (World R))) (rs : Routes)
      (path : GoString)
      → (route_of (new_biz_http_server P K encode_error T cfg (some (handled rs)) extra).s path
          ≡ Option.map (behind (server_chain P K extra)) (lookup path rs))
        × (options (new_biz_http_server P K encode_error T cfg (some (handled rs)) extra).s
            ≡ middlewares_are (server_chain P K extra) ∷ base_http_opts cfg)
        × ((new_biz_http_server P K encode_error T cfg (some (handled rs)) extra).chain
            ≡ server_chain P K extra)
  unfolding new_biz_http_server
  business-routes cfg extra rs path =
      let mws = server_chain P K extra in
      let os = middlewares_are mws ∷ base_http_opts cfg in
      let b : BizHttpServer P K encode_error T = record { s = T.new_server os; chain = mws } in
      let (into, same) = handled-registered rs b in
      (
        rw (into, route_of-registered T (wrapped mws rs) path, T.route_of-new_server os path)
            (lookup-wrapped mws path rs),
        rw (into, registered-options T (wrapped mws rs)) (T.options-new_server os),
        same,
      )
