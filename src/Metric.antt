-- ===== src/Metric.antt =====
-- pkg/metric: descriptors, the collectors of pools of connections, and what the package registers.
pub mod Pool
pub mod Mongo
pub mod Registry
pub mod Prom
use go_infrastructure.Prelude.{Option, none, some, List, [], ◌∷◌, ◌≡◌, ℤ, GoString, codes}

-- A descriptor of Prometheus, without its help text; `labels` are the variable labels.
pub record Desc : Type 0 where
  pub name : GoString
  pub labels : List GoString

pub data ValueType : Type 0 where
  gauge counter : ValueType

-- What the collectors take from the Prometheus client: numbers as it stores them, and
-- `MustNewConstMetric`, with `none` for its panic, which is documented to check that there are as
-- many label values as the descriptor has labels.
pub record Prometheus : Type 1 where
  pub Float : Type 0
  pub of_int : ℤ → Float
  -- `d.Seconds()`
  pub seconds : ℤ → Float
  pub Metric : Type 0
  pub desc_of : Metric → Desc
  pub const_metric : Desc → ValueType → Float → List GoString → Option Metric
  pub const_metric_one :
      (n l v : GoString) (k : ValueType) (x : Float)
      → (m : Metric) × (const_metric (record { name = n; labels = l ∷ [] }) k x (v ∷ []) ≡ some m)
        × (desc_of m ≡ record { name = n; labels = l ∷ [] })

-- `prometheus.NewDesc` with the one label `name`, as all pool metrics have it.
abbrev pub pool_desc : GoString → Desc
pool_desc n = record { name = n; labels = codes "name" ∷ [] }

-- What is sent to a channel of metrics, up to the first panic.
pub sent : {A : Type 0} → List (Option A) → Option (List A)
sent [] = some []
sent (m ∷ ms) = elim m [
  | none ↦ none
  | some a ↦ elim (sent ms) [ none ↦ none | some as' ↦ some (a ∷ as') ]
]
