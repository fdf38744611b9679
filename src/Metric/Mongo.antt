-- ===== src/Metric/Mongo.antt =====
-- pkg/metric/mongo.go: the counters of the events of MongoDB's pools.
use go_infrastructure.Prelude.{
  ℕ, ◌+◌, Bool, true, false, ◌&&◌, List, [], ◌∷◌, GoString, eq_str, if◌then◌else◌,
}

-- A counter vector as the trace of the calls `WithLabelValues(ls...).Inc()` on it, by their label
-- values, the newest first. What Prometheus makes of them is not part of the model.
abbrev pub Counter : Type 0
Counter = List (List GoString)

abbrev pub eq_labels : List GoString → List GoString → Bool
eq_labels [] [] = true
eq_labels (a ∷ as') (b ∷ bs) = eq_str a b && eq_labels as' bs
eq_labels _ _ = false

-- How many calls had some label values.
abbrev pub value : List GoString → Counter → ℕ
value ls [] = 0
value ls (l ∷ c) = (if eq_labels l ls then 1 else 0) + value ls c

-- One such call.
abbrev pub inc : List GoString → Counter → Counter
inc ls c = ls ∷ c

pub record MongoCounters : Type 0 where
  pub connections_created : Counter
  pub connections_closed : Counter
  pub checkouts_started : Counter
  pub checkouts_failed : Counter
  pub checkouts_succeeded : Counter
  pub checkins : Counter
