-- ===== src/Services/Gamma/Overdue.antt =====
-- An RPC of kris-gamma that outlasts its budget, through the chain of its gRPC listener.
use go_infrastructure.Prelude.{
  ◌≡◌, refl, ap, ◌∙◌, false, none, some, List, [], ◌∷◌, pos, GoString, codes,
}
use go_infrastructure.Kratos.Defs.{Platform}
use go_infrastructure.Middleware.Handler.{
  Context, returned, Handler, Middleware, operation_of, kind_of,
}
use go_infrastructure.Middleware.World.{World, LogLine}
use go_infrastructure.Middleware.Observe.{metric_code, code_of}
use go_infrastructure.Middleware.Timeout
use go_infrastructure.Middleware.Timeout.{err_deadline_exceeded}
use go_infrastructure.Middleware.Timeout.Deadline.{server_late}
use go_infrastructure.Client.Dial.{Dialer}
use go_infrastructure.Client.Grpc.{ClientOption}
use go_infrastructure.Server.Response.{Writer}
use go_infrastructure.Server.Chain.{Kratos, ServerOption, middlewares_are, server_chain}
use go_infrastructure.Server.Chain.Observed.{entered, server_chain-returned}
use go_infrastructure.Server.Probe
use go_infrastructure.Server.Listen.{Transports, Pprof, Raw, new_grpc_server, grpc_opts}
use go_infrastructure.Services.Gamma.{Connectivity, timeout_mw, start}
use go_infrastructure.Version.{Info}

module _ (P : Platform) where
  open P use {of_kratos, as_kratos-of_kratos, code-new_error, reason-new_error}

  deadline-metric_code :
      metric_code P (some (of_kratos (err_deadline_exceeded P))) ≡ codes "DEADLINE_EXCEEDED"
  unfolding metric_code
  deadline-metric_code =
      rw
        (
          metric_code,
          as_kratos-of_kratos (err_deadline_exceeded P),
          reason-new_error 504 (codes "DEADLINE_EXCEEDED")
              (codes "handler exceeded configured timeout"),
        )
        refl

  deadline-code_of :
      code_of P (some (of_kratos (err_deadline_exceeded P))) ≡ codes "DEADLINE_EXCEEDED"
  unfolding code_of
  deadline-code_of =
      rw
        (
          code_of,
          as_kratos-of_kratos (err_deadline_exceeded P),
          reason-new_error 504 (codes "DEADLINE_EXCEEDED")
              (codes "handler exceeded configured timeout"),
        )
        refl

module _ (P : Platform) {R Extra Conn Grpc Tls Filter : Type 0} (K : Kratos P (World R))
    (encode_error : P.Err → World R → World R) (out : Writer (World R))
    (net : Dialer (ClientOption P Extra) Conn (World R)) (get_state : Conn → World R → Connectivity)
    (race : Timeout.Race P (World R))
    (new_grpc_transport : List (ServerOption Tls Filter (Middleware P (World R))) → Grpc)
    (T : Transports (ServerOption Tls Filter (Middleware P (World R))) (Raw P K encode_error)) where
  open P use {Any, KratosError, of_kratos, code, code-new_error}

  budget : Middleware P (World R)
  budget = timeout_mw P K encode_error out net get_state race new_grpc_transport T

  chain-overdue :
      (h : Handler P (World R)) (ctx : Context Any) (req : Any) (w : World R)
      → race.answers_first (pos 2_000_000_000) w ≡ false
      → K.chain (budget ∷ []) h ctx req w
        ≡ (returned none (some (of_kratos (err_deadline_exceeded P))), race.abandon w)
  unfolding budget timeout_mw Timeout.server_with Timeout.apply Timeout.with_timeout
  chain-overdue h ctx req w late =
      ap (λ (g : Handler P (World R)). g ctx req w) (K.chain-cons budget [] h)
      ∙ server_late P race (record { timeout = pos 2_000_000_000; skip = none }) (K.chain [] h) ctx
          req w refl refl late

  -- An RPC of a started kris-gamma whose handler has no answer within two seconds is answered by the
  -- kratos error DEADLINE_EXCEEDED of code 504, whatever the handler, through the middlewares that
  -- its gRPC server is made with. It is counted once and logged once, under that code, in the world
  -- in which the middleware gives up.
  pub start-overdue :
      (encode : Probe.Ready → GoString) (marshal : Info → GoString) (go : GoString)
      (metrics : Raw P K encode_error) (profiling : Pprof (Raw P K encode_error))
      (warn : GoString → World R → World R) (upstream grpc_addr other_addr : GoString) (info : Info)
      (h : Handler P (World R)) (ctx : Context Any) (req : Any) (w0 w : World R)
      → race.answers_first (pos 2_000_000_000) (entered P K ctx w).1 ≡ false
      → (mws : List (Middleware P (World R))) × (rest : List
          (ServerOption Tls Filter (Middleware P (World R))))
        × (w3 : World R) × (e : KratosError) × ((start P K encode_error out net get_state race
              new_grpc_transport T encode marshal go metrics profiling warn upstream grpc_addr
              other_addr info w0).0.gs
            ≡ new_grpc_transport (middlewares_are mws ∷ rest))
        × (K.chain mws h ctx req w ≡ (returned none (some (of_kratos e)), w3))
        × (code e ≡ 504)
        × (w3.requests
            ≡ (kind_of P ctx, operation_of P ctx, codes "DEADLINE_EXCEEDED")
              ∷ (race.abandon (entered P K ctx w).1).requests)
        × ((line : LogLine) × (w3.log ≡ line ∷ (race.abandon (entered P K ctx w).1).log)
            × (line.op ≡ operation_of P ctx)
            × (line.code ≡ codes "DEADLINE_EXCEEDED"))
  unfolding start new_grpc_server grpc_opts budget
  start-overdue encode marshal go metrics profiling warn upstream grpc_addr other_addr info h ctx
        req w0 w late =
      let (w3, answer, requests, latencies, panics, reply, rest, (line, log, id, kind, op, code)) =
        server_chain-returned P K (budget ∷ []) h ctx req w _ none _
          (chain-overdue h (entered P K ctx w).0 req (entered P K ctx w).1 late) in
      (
        server_chain P K (budget ∷ []),
        _,
        w3,
        err_deadline_exceeded P,
        refl,
        answer,
        code-new_error _ _ _,
        requests
            ∙ ap
                (λ (c : GoString).
                  (kind_of P ctx, operation_of P ctx, c)
                  ∷ (race.abandon (entered P K ctx w).1).requests)
                (deadline-metric_code P),
        (line, log, op, code ∙ deadline-code_of P),
      )
