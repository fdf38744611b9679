-- ===== src/Middleware/Observe.antt =====
-- pkg/middleware/access/access.go, pkg/middleware/metric/metric.go and
-- pkg/middleware/recovery/recovery.go. A panic passes through the first two, which have no `defer`.
use go_infrastructure.Prelude.{
  ℕ, ◌-◌, ◌/◌, Bool, true, false, Option, none, some, ◌∷◌, GoString, codes, is_empty, if◌then◌else◌,
}
use go_infrastructure.Kratos.Defs.{Platform, internal_server}
use go_infrastructure.Middleware.Handler.{
  Context, Outcome, returned, panicked, crashed, Middleware, operation_of, kind_of,
}
use go_infrastructure.Middleware.World.{World, LogLine}
use go_infrastructure.Middleware.Logid

module _ (P : Platform) where
  open P use {Any, Err, KratosError, as_kratos, reason, error_text, of_kratos}

  unfoldable pub code_of : Option Err → GoString
  code_of none = codes "ok"
  code_of (some e) = elim (as_kratos e) [ some k ↦ reason k | none ↦ codes "error" ]

  abbrev warns : Option Err → Bool
  warns none = false
  warns (some e) = true

  abbrev text_of : Option Err → Option GoString
  text_of none = none
  text_of (some e) = some (error_text e)

  unfoldable pub access_line : {R : Type 0} → Context Any → ℕ → Option Err → World R → LogLine
  unfolding code_of
  access_line ctx start err w = record {
    warn = warns err;
    trace_id = Logid.from_context P ctx;
    kind = kind_of P ctx;
    op = operation_of P ctx;
    code = code_of err;
    latency_ms = (w.clock - start) / 1_000_000;
    err = text_of err;
  }

  log_outcome : {R : Type 0} → Context Any → ℕ → Outcome P × World R → Outcome P × World R
  unfolding access_line
  log_outcome ctx start (returned reply err, w) =
      (returned reply err, record w { log = access_line ctx start err w ∷ w.log })
  log_outcome ctx start (panicked v, w) = (panicked v, w)
  log_outcome ctx start (crashed, w) = (crashed, w)

  unfoldable pub access : {R : Type 0} → Middleware P (World R)
  unfolding log_outcome
  access h ctx req w = log_outcome ctx w.clock (h ctx req w)

  unfoldable pub metric_code : Option Err → GoString
  metric_code none = codes "ok"
  metric_code (some e) = elim (as_kratos e) [
    | none ↦ codes "error"
    | some k ↦ if is_empty (reason k) then codes "error" else reason k
  ]

  count_outcome : {R : Type 0} → Context Any → ℕ → Outcome P × World R → Outcome P × World R
  unfolding metric_code
  count_outcome ctx start (returned reply err, w) = (
    returned reply err,
    record w {
      requests = (kind_of P ctx, operation_of P ctx, metric_code err) ∷ w.requests;
      latencies = (kind_of P ctx, operation_of P ctx, w.clock - start) ∷ w.latencies;
    },
  )
  count_outcome ctx start (panicked v, w) = (panicked v, w)
  count_outcome ctx start (crashed, w) = (crashed, w)

  unfoldable pub metric : {R : Type 0} → Middleware P (World R)
  unfolding count_outcome
  metric h ctx req w = count_outcome ctx w.clock (h ctx req w)

  abbrev pub err_panic : KratosError
  err_panic = internal_server P (codes "PANIC") (codes "handler panicked")

  -- The handler that `recovery.WithHandler` gets.
  unfoldable pub on_panic : {R : Type 0} → Context Any → Any → Any → World R → Err × World R
  on_panic ctx req v w = (of_kratos err_panic, record w { panics = operation_of P ctx ∷ w.panics })
