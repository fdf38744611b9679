-- ===== src/Metric/Prom/Registered.antt =====
-- Which registrations succeed.
use go_infrastructure.Prelude.{
  ◌≡◌, refl, ap, ◌∙◌, Bool, true, ◌&&◌, Option, none, some, List, [], ◌∷◌, ◌++◌, GoString, eq_str,
  arith,
}
use go_infrastructure.Metric.{Desc}
use go_infrastructure.Metric.Prom.{
  apart, names_of, NamedRegistry, must_register, init_prom, init_mongo, initialised, prom_metrics,
  mongo_metrics,
}
use go_infrastructure.Metric.Pool.{SqlCollector, RedisCollector, describe_sql, describe_redis}

-- Collectors that have no name in common with each other or with the names before them.
abbrev fits : List GoString → List (List Desc) → Bool
fits ns [] = true
fits ns (ds ∷ dss) = apart (names_of ds) ns && fits (names_of ds ++ ns) dss

-- The names after their registration.
abbrev after : List GoString → List (List Desc) → List GoString
after ns [] = ns
after ns (ds ∷ dss) = after (names_of ds ++ ns) dss

module _ {W : Type 0} (N : NamedRegistry W) where
  must_register_next :
      (ds : List Desc) (dss : List (List Desc)) (w w1 : W)
      → N.register ds w ≡ (none, w1)
      → must_register N (ds ∷ dss) w ≡ must_register N dss w1
  unfolding must_register
  must_register_next ds dss w w1 e =
      ap
        (λ (r : Option GoString × W). elim r.0 [
          | some text ↦ none
          | none ↦ must_register N dss r.1
        ])
        e

  must_register-fits :
      (dss : List (List Desc)) (w : W) (ns : List GoString)
      → N.names w ≡ ns
      → fits ns dss ≡ true
      → (w' : W) × (must_register N dss w ≡ some w') × (N.names w' ≡ after ns dss)
  unfolding must_register
  must_register-fits [] w ns e f = (w, refl, e)
  must_register-fits (ds ∷ dss) w ns e f =
      let (w1, r, n) = N.register-apart ds w (ground (arith, e)) in
      let (w2, s, m) =
        must_register-fits dss w1 (names_of ds ++ ns) (n ∙ ap (λ l. names_of ds ++ l) e)
          (ground arith) in
      (w2, must_register_next ds dss w w1 r ∙ s, m)

  -- The initialisation of the package does not panic in a process that has registered nothing; and
  -- a collector of an SQL pool and one of a Redis pool can be registered after it.
  pub initialised_lem :
      {Db Client : Type 0} (w : W) (sql : SqlCollector Db) (redis : RedisCollector Client)
      → N.names w ≡ []
      → (w1 w2 w3 : W) × (initialised N w ≡ some w1)
        × (N.register (describe_sql sql) w1 ≡ (none, w2))
        × (N.register (describe_redis redis) w2 ≡ (none, w3))
  unfolding initialised init_mongo init_prom eq_str describe_sql describe_redis
  initialised_lem w sql redis e =
      let (m, ok, n) = must_register-fits mongo_metrics w [] e refl in
      let (w1, ok', n1) = must_register-fits prom_metrics m _ n refl in
      let (w2, sql_ok, n2) = N.register-apart (describe_sql sql) w1 (rw n1 refl) in
      let (w3, redis_ok, n3) = N.register-apart (describe_redis redis) w2 (rw (n2, n1) refl) in
      (w1, w2, w3, rw (initialised, ok) ok', sql_ok, redis_ok)
