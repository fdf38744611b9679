-- ===== src/Metric/Prom/Tests.antt =====
-- The metrics of the package at a registry of names.
use go_infrastructure.Prelude.{
  ℕ, ◌≡◌, refl, none, some, List, [], ◌∷◌, ◌++◌, GoString, codes, eq_str, if◌then◌else◌,
}
use go_infrastructure.Metric.Pool.{SqlCollector, RedisCollector, describe_sql, describe_redis}
use go_infrastructure.Metric.Prom.{
  apart, names_of, panics_total, NamedRegistry, must_register, initialised,
}
use go_infrastructure.Metric.Prom.Registered.{initialised_lem}

abbrev Names : Type 0
Names = List GoString

abbrev registry : NamedRegistry Names
registry = record {
  names = λ ns. ns;
  register = λ ds ns.
      if apart (names_of ds) ns then (none, names_of ds ++ ns) else (some (codes "duplicate"), ns);
  register-apart = λ ds ns e. (names_of ds ++ ns, rw e refl, refl);
}

abbrev sql : SqlCollector ℕ
sql = record { db = 1; name = codes "orders" }

abbrev redis : RedisCollector ℕ
redis = record { cli = 2; name = codes "cache" }

initialised_lem_run :
    (w1 w2 w3 : Names) × (initialised registry [] ≡ some w1)
    × (registry.register (describe_sql sql) w1 ≡ (none, w2))
    × (registry.register (describe_redis redis) w2 ≡ (none, w3))
initialised_lem_run = initialised_lem registry [] sql redis refl

-- A second registration of a metric panics.
must_register_run :
    must_register registry ((panics_total ∷ []) ∷ (panics_total ∷ []) ∷ []) [] ≡ none
unfolding must_register eq_str
must_register_run = refl
