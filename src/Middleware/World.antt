-- ===== src/Middleware/World.antt =====
-- The part of the process that the default middlewares read and write: the headers of the transport,
-- the supply of UUIDs, the clock, the counters of pkg/metric and the access log.
use go_infrastructure.Prelude.{ℕ, Bool, Option, List, GoString}

-- A line of the access log.
pub record LogLine : Type 0 where
  pub warn : Bool
  pub trace_id : GoString
  pub kind : GoString
  pub op : GoString
  pub code : GoString
  pub latency_ms : ℕ
  pub err : Option GoString

-- `reply_header` is the header of the reply: for HTTP that of the response, as far as the middlewares
-- set it. The newest entry of each list comes first. `clock` counts nanoseconds. `rest` is the
-- part of the process that they leave alone, such as the status and body of a response and the state of other middlewares.
pub record World (R : Type 0) : Type 0 where
  pub reply_header : List (GoString × GoString)
  pub request_header : List (GoString × GoString)
  pub uuids : ℕ → GoString
  pub drawn : ℕ
  pub clock : ℕ
  pub requests : List (GoString × GoString × GoString)
  pub latencies : List (GoString × GoString × ℕ)
  pub panics : List GoString
  pub log : List LogLine
  pub rest : R
