-- ===== src/Client/Http.antt =====
-- pkg/client/http.go.
use go_infrastructure.Prelude.{
  Bool, none, some, List, [], ◌∷◌, ◌++◌, map, ℤ, pos, GoString, codes, is_empty, ltb_ℤ, eq_ℤ,
  if◌then◌else◌,
}
use go_infrastructure.Kratos.Defs.{Platform}
use go_infrastructure.Client.{RetryConfig, Layer, layers}
use go_infrastructure.Client.Dial.{Dialed, connected, refused, Opened, opened, not_opened, Dialer}

pub record HttpConfig : Type 0 where
  pub endpoint : GoString
  pub timeout : ℤ
  pub dial_timeout : ℤ
  pub no_circuit_breaker : Bool
  pub retry : RetryConfig

-- An option of kratos' HTTP client: one that the constructor makes, or one of the caller's.
pub data ClientOption (P : Platform) (Extra : Type 0) : Type 0 where
  endpoint_is : GoString → ClientOption P Extra
  middleware_is : List (Layer P) → ClientOption P Extra
  timeout_is : ℤ → ClientOption P Extra
  of_caller : Extra → ClientOption P Extra

module _ (P : Platform) {Extra Conn W : Type 0} (net : Dialer (ClientOption P Extra) Conn W) where
  http_options : HttpConfig → List Extra → List (ClientOption P Extra)
  http_options cfg extra =
      endpoint_is cfg.endpoint
        ∷ middleware_is (layers P cfg.retry cfg.no_circuit_breaker)
        ∷ (if ltb_ℤ (pos 0) cfg.timeout then timeout_is cfg.timeout ∷ [] else [])
      ++ map of_caller extra

  http_settle : GoString → Dialed Conn × W → Opened Conn × W
  http_settle endpoint (connected c, w) =
      (opened c, net.info (codes "downstream http client ready") w)
  http_settle endpoint (refused err, w) =
      (not_opened (codes "http client new " ++ endpoint ++ codes ": " ++ err), w)

  pub new_http : HttpConfig → List Extra → W → Opened Conn × W
  unfolding http_options http_settle
  new_http cfg extra w =
      if is_empty cfg.endpoint
      then (not_opened (codes "http client: empty Endpoint"), w)
      else (let dial_timeout =
            if eq_ℤ cfg.dial_timeout (pos 0) then pos 5_000_000_000 else cfg.dial_timeout in
          http_settle cfg.endpoint (net.dial dial_timeout (http_options cfg extra) w))

  pub http_cleanup : Conn → W → W
  http_cleanup c w =
      let (stuck, w1) = net.close c w in
      elim stuck [
        | some err ↦ net.error (codes "http client close: " ++ err) w1
        | none ↦ net.info (codes "http client closed") w1
      ]
