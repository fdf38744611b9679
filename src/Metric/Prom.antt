-- ===== src/Metric/Prom.antt =====
-- pkg/metric/prom.go and mongo.go: the metrics that the package declares and registers as it is
-- initialised. The registry of the Prometheus client is a parameter.
pub mod Registered
mod Tests
use go_infrastructure.Prelude.{
  ℕ, ◌≡◌, Bool, true, ◌&&◌, not, Option, none, some, List, [], ◌∷◌, ◌++◌, map, GoString, codes,
  eq_str, ◌||◌, false,
}
use go_infrastructure.Metric.{Desc}

abbrev pub requests_total : Desc
requests_total = record {
  name = codes "kris_requests_total";
  labels = codes "kind" ∷ codes "op" ∷ codes "code" ∷ [];
}

abbrev pub request_latency_seconds : Desc
request_latency_seconds = record {
  name = codes "kris_request_latency_seconds";
  labels = codes "kind" ∷ codes "op" ∷ [];
}

-- The upper bounds of the histogram's buckets, in milliseconds.
abbrev pub latency_buckets : List ℕ
latency_buckets = 5 ∷ 10 ∷ 25 ∷ 50 ∷ 100 ∷ 250 ∷ 500 ∷ 1_000 ∷ 2_500 ∷ 5_000 ∷ 10_000 ∷ []

abbrev pub panics_total : Desc
panics_total = record { name = codes "kris_panics_total"; labels = codes "op" ∷ [] }

abbrev pub mongo_connections_created : Desc
mongo_connections_created = record {
  name = codes "kris_mongo_pool_connections_created_total";
  labels = codes "name" ∷ [];
}

abbrev pub mongo_connections_closed : Desc
mongo_connections_closed = record {
  name = codes "kris_mongo_pool_connections_closed_total";
  labels = codes "name" ∷ codes "reason" ∷ [];
}

abbrev pub mongo_checkouts_started : Desc
mongo_checkouts_started = record {
  name = codes "kris_mongo_pool_checkouts_started_total";
  labels = codes "name" ∷ [];
}

abbrev pub mongo_checkouts_failed : Desc
mongo_checkouts_failed = record {
  name = codes "kris_mongo_pool_checkouts_failed_total";
  labels = codes "name" ∷ codes "reason" ∷ [];
}

abbrev pub mongo_checkouts_succeeded : Desc
mongo_checkouts_succeeded = record {
  name = codes "kris_mongo_pool_checkouts_succeeded_total";
  labels = codes "name" ∷ [];
}

abbrev pub mongo_checkins : Desc
mongo_checkins = record {
  name = codes "kris_mongo_pool_checkins_total";
  labels = codes "name" ∷ [];
}

-- The collectors that each `init` registers.
abbrev pub prom_metrics : List (List Desc)
prom_metrics = (requests_total ∷ []) ∷ (request_latency_seconds ∷ []) ∷ (panics_total ∷ []) ∷ []

abbrev pub mongo_metrics : List (List Desc)
mongo_metrics =
    (mongo_connections_created ∷ [])
    ∷ (mongo_connections_closed ∷ [])
    ∷ (mongo_checkouts_started ∷ [])
    ∷ (mongo_checkouts_failed ∷ [])
    ∷ (mongo_checkouts_succeeded ∷ [])
    ∷ (mongo_checkins ∷ [])
    ∷ []

abbrev is_member : GoString → List GoString → Bool
is_member x [] = false
is_member x (y ∷ ys) = eq_str x y || is_member x ys

abbrev pub apart : List GoString → List GoString → Bool
apart [] ns = true
apart (x ∷ xs) ns = not (is_member x ns) && apart xs ns

abbrev pub names_of : List Desc → List GoString
names_of ds = map (λ d. d.name) ds

-- `Register` of a collector by its descriptors, an error by its text, and the names of all
-- registered descriptors. A collector with new names alone is documented to be accepted.
pub record NamedRegistry (W : Type 0) : Type 0 where
  pub names : W → List GoString
  pub register : List Desc → W → Option GoString × W
  pub register-apart :
      (ds : List Desc) (w : W)
      → apart (names_of ds) (names w) ≡ true
      → (w' : W) × (register ds w ≡ (none, w')) × (names w' ≡ names_of ds ++ names w)

module _ {W : Type 0} (N : NamedRegistry W) where
  -- `MustRegister`, with `none` for its panic at the first error.
  pub must_register : List (List Desc) → W → Option W
  must_register [] w = some w
  must_register (ds ∷ dss) w =
      let (err, w') = N.register ds w in
      let rest = must_register dss w' in elim err [ some text ↦ none | none ↦ rest ]

  -- The `init` of prom.go.
  pub init_prom : W → Option W
  unfolding must_register
  init_prom w = must_register prom_metrics w

  -- The `init` of mongo.go.
  pub init_mongo : W → Option W
  unfolding must_register
  init_mongo w = must_register mongo_metrics w

  -- The package's initialisation: its files in the order of their names.
  pub initialised : W → Option W
  unfolding init_mongo init_prom
  initialised w = elim (init_mongo w) [ none ↦ none | some w' ↦ init_prom w' ]
