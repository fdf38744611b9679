-- ===== src/Server/Chain.antt =====
-- pkg/runtime/server: `defaultChain` and the options of grpc.go and http.go, `wrapHandler` of http.go.
pub mod Observed
pub mod Wrapped
pub mod Served
mod Tests
use go_infrastructure.Prelude.{
  ℕ, ◌≡◌, Bool, true, false, Option, none, some, List, [], ◌∷◌, ◌++◌, ℤ, pos, GoString, is_empty,
  ltb_ℤ, if◌then◌else◌,
}
use go_infrastructure.Kratos.Defs.{Platform}
use go_infrastructure.Middleware.Handler.{
  Context, Outcome, returned, panicked, crashed, Handler, Middleware,
}
use go_infrastructure.Middleware.World.{World}
use go_infrastructure.Middleware.Logid
use go_infrastructure.Middleware.Observe.{access, metric, on_panic}

-- `middleware.Chain`, `recovery.Recovery` and `tracing.Server` of kratos, over a state `W`, with
-- their documented behaviour: a chain wraps from the right; recovery logs a panic with its stack, by
-- `log_panic`, and answers it by its handler; tracing runs the handler in a context with a span of its own.
pub record Kratos (P : Platform) (W : Type 0) : Type 0 where
  pub chain : List (Middleware P W) → Middleware P W
  pub chain-nil : (h : Handler P W) → chain [] h ≡ h
  pub chain-cons :
      (m : Middleware P W) (ms : List (Middleware P W)) (h : Handler P W)
      → chain (m ∷ ms) h ≡ m (chain ms h)
  pub recover : (Context P.Any → P.Any → P.Any → W → P.Err × W) → Middleware P W
  pub log_panic : Context P.Any → P.Any → P.Any → W → W
  pub recover-returned :
      (f : Context P.Any → P.Any → P.Any → W → P.Err × W) (h : Handler P W) (ctx : Context P.Any)
      (req : P.Any) (w w' : W) (reply : Option P.Any) (err : Option P.Err)
      → h ctx req w ≡ (returned reply err, w')
      → recover f h ctx req w ≡ (returned reply err, w')
  pub recover-panicked :
      (f : Context P.Any → P.Any → P.Any → W → P.Err × W) (h : Handler P W) (ctx : Context P.Any)
      (req : P.Any) (w w' : W) (v : P.Any)
      → h ctx req w ≡ (panicked v, w')
      → recover f h ctx req w ≡ (
        returned none (some (f ctx req v (log_panic ctx req v w')).0),
        (f ctx req v (log_panic ctx req v w')).1,
      )
  pub recover-crashed :
      (f : Context P.Any → P.Any → P.Any → W → P.Err × W) (h : Handler P W) (ctx : Context P.Any)
      (req : P.Any) (w w' : W)
      → h ctx req w ≡ (crashed, w')
      → recover f h ctx req w ≡ (crashed, w')
  pub span_for : Context P.Any → Option GoString
  pub tracing : Middleware P W
  pub tracing_lem :
      (h : Handler P W) (ctx : Context P.Any) (req : P.Any) (w : W)
      → tracing h ctx req w ≡ h (record ctx { span = span_for ctx }) req w

module _ (P : Platform) {R : Type 0} (K : Kratos P (World R)) where
  pub default_chain : List (Middleware P (World R))
  default_chain = K.recover (on_panic P) ∷ K.tracing ∷ Logid.server P ∷ access P ∷ metric P ∷ []

  -- The middlewares of `NewGRPCServer` and `NewBizHTTPServer`.
  pub server_chain : List (Middleware P (World R)) → List (Middleware P (World R))
  unfolding default_chain
  server_chain extra = default_chain ++ extra

-- The configuration of a listener; `Tls` and `Filter` are types of other packages.
pub record HttpConfig (Tls Filter : Type 0) : Type 0 where
  pub network : GoString
  pub addr : GoString
  pub timeout : ℤ
  pub filters : List Filter
  pub tls_config : Option Tls

-- The server options of kratos for both transports; `Mw` is its type of middlewares.
pub data ServerOption (Tls Filter Mw : Type 0) : Type 0 where
  middlewares_are : List Mw → ServerOption Tls Filter Mw
  network_is address_is : GoString → ServerOption Tls Filter Mw
  timeout_is : ℤ → ServerOption Tls Filter Mw
  filters_are : List Filter → ServerOption Tls Filter Mw
  tls_is : Tls → ServerOption Tls Filter Mw

abbrev pub when {ℓ} : {A : Type ℓ} → Bool → A → List A
when true a = a ∷ []
when false a = []

abbrev pub tls_option : {Tls Filter Mw : Type 0} → Option Tls → List (ServerOption Tls Filter Mw)
tls_option none = []
tls_option (some c) = tls_is c ∷ []

unfoldable pub base_http_opts :
    {Tls Filter Mw : Type 0} → HttpConfig Tls Filter → List (ServerOption Tls Filter Mw)
base_http_opts cfg =
    (if is_empty cfg.network then [] else network_is cfg.network ∷ [])
    ++ (if is_empty cfg.addr then [] else address_is cfg.addr ∷ [])
    ++ when (ltb_ℤ (pos 0) cfg.timeout) (timeout_is cfg.timeout)
    ++ (if is_empty cfg.filters then [] else filters_are cfg.filters ∷ [])
    ++ tls_option cfg.tls_config

-- A raw handler of net/http; it returns, or it ends as a panic does.
pub data RawEnd (P : Platform) : Type 0 where
  served : RawEnd P
  raw_panicked : P.Any → RawEnd P
  raw_crashed : RawEnd P

module _ (P : Platform) {W : Type 0} (K : Kratos P W) (encode_error : P.Err → W → W) where
  abbrev pub RawHandler : Type 0
  RawHandler = Context P.Any → W → RawEnd P × W

  unfoldable pub as_outcome : RawEnd P × W → Outcome P × W
  as_outcome (served, w) = (returned none none, w)
  as_outcome (raw_panicked v, w) = (panicked v, w)
  as_outcome (raw_crashed, w) = (crashed, w)

  -- What is left to do with the answer of the chain.
  finish : Outcome P × W → RawEnd P × W
  finish (returned reply none, w) = (served, w)
  finish (returned reply (some e), w) = (served, encode_error e w)
  finish (panicked v, w) = (raw_panicked v, w)
  finish (crashed, w) = (raw_crashed, w)

  -- `req` is the request as a value, which the chain gets beside its context.
  pub wrap_handler : List (Middleware P W) → P.Any → RawHandler → RawHandler
  unfolding as_outcome finish
  wrap_handler mws req h ctx w =
      let kh : Handler P W = λ c r v. as_outcome (h c v) in
      if is_empty mws then h ctx w else finish (K.chain mws kh ctx req w)
