-- ===== src/Client/Grpc.antt =====
-- pkg/client/grpc.go.
use go_infrastructure.Prelude.{
  Bool, none, some, List, [], ◌∷◌, ◌++◌, ℤ, pos, GoString, codes, is_empty, ltb_ℤ, eq_ℤ,
  if◌then◌else◌,
}
use go_infrastructure.Kratos.Defs.{Platform}
use go_infrastructure.Client.{RetryConfig, Layer, layers}
use go_infrastructure.Client.Dial.{Dialed, connected, refused, Opened, opened, not_opened, Dialer}

pub record Config : Type 0 where
  pub endpoint : GoString
  pub timeout : ℤ
  pub dial_timeout : ℤ
  pub no_circuit_breaker : Bool
  pub retry : RetryConfig

-- An option of kratos' gRPC client; `Extra` is the type of the dial options of grpc itself.
pub data ClientOption (P : Platform) (Extra : Type 0) : Type 0 where
  endpoint_is : GoString → ClientOption P Extra
  middleware_is : List (Layer P) → ClientOption P Extra
  timeout_is : ℤ → ClientOption P Extra
  options_are : List Extra → ClientOption P Extra

module _ (P : Platform) {Extra Conn W : Type 0} (net : Dialer (ClientOption P Extra) Conn W) where
  grpc_options : Config → List Extra → List (ClientOption P Extra)
  grpc_options cfg extra =
      endpoint_is cfg.endpoint
        ∷ middleware_is (layers P cfg.retry cfg.no_circuit_breaker)
        ∷ (if ltb_ℤ (pos 0) cfg.timeout then timeout_is cfg.timeout ∷ [] else [])
      ++ (if is_empty extra then [] else options_are extra ∷ [])

  grpc_settle : GoString → Dialed Conn × W → Opened Conn × W
  grpc_settle endpoint (connected c, w) = (opened c, net.info (codes "downstream connected") w)
  grpc_settle endpoint (refused err, w) =
      (not_opened (codes "grpc client dial " ++ endpoint ++ codes ": " ++ err), w)

  unfoldable pub new_grpc : Config → List Extra → W → Opened Conn × W
  unfolding grpc_options grpc_settle
  new_grpc cfg extra w =
      if is_empty cfg.endpoint
      then (not_opened (codes "grpc client: empty Endpoint"), w)
      else (let dial_timeout =
            if eq_ℤ cfg.dial_timeout (pos 0) then pos 5_000_000_000 else cfg.dial_timeout in
          grpc_settle cfg.endpoint (net.dial dial_timeout (grpc_options cfg extra) w))

  pub grpc_cleanup : Conn → W → W
  grpc_cleanup c w =
      let (stuck, w1) = net.close c w in
      elim stuck [
        | some err ↦ net.error (codes "conn close: " ++ err) w1
        | none ↦ net.info (codes "downstream closed") w1
      ]
