-- ===== src/Metric/Pool/Scrape.antt =====
-- What a scrape of a pool's collector yields.
use go_infrastructure.Prelude.{◌≡◌, refl, Option, some, List, [], ◌∷◌, map, GoString, codes}
use go_infrastructure.Metric.{Desc, ValueType, Prometheus, pool_desc, sent}
use go_infrastructure.Metric.Pool.{
  SqlCollector, SqlStats, RedisCollector, RedisStats, describe_sql, describe_redis, collect_sql,
  collect_redis,
}

module _ (P : Prometheus) where
  open P use {Metric, Float, desc_of, const_metric, const_metric_one}

  -- That a list of attempts at metrics goes through, and yields the given descriptors.
  abbrev pub Yields : Option (List Metric) → List Desc → Type 0
  Yields r ds = (ms : List Metric) × (r ≡ some ms) × (map desc_of ms ≡ ds)

  Yields-nil : Yields (sent []) []
  unfolding sent
  Yields-nil = ([], refl, refl)

  Yields-cons :
      (n name : GoString) (k : ValueType) (x : Float) (rest : List (Option Metric)) (ds : List Desc)
      → Yields (sent rest) ds
      → Yields (sent (const_metric (pool_desc n) k x (name ∷ []) ∷ rest)) (pool_desc n ∷ ds)
  unfolding sent
  Yields-cons n name k x rest ds (ms, e, d) =
      let (m, me, md) = const_metric_one n (codes "name") name k x in
      (m ∷ ms, rw (me, e) refl, rw (md, d) refl)

  -- A scrape of a SQL pool's collector does not panic, and yields one metric for each descriptor
  -- that `Describe` gives, in that order.
  pub collect_sql-describe_sql :
      {Db : Type 0} (stats : Db → SqlStats) (c : SqlCollector Db)
      → (ms : List Metric) × (collect_sql P stats c ≡ some ms) × (map desc_of ms ≡ describe_sql c)
  unfolding collect_sql describe_sql
  collect_sql-describe_sql stats c = search (Yields-cons, Yields-nil) depth 8

  -- A scrape of a Redis pool's collector does not panic, and yields one metric for each descriptor
  -- that `Describe` gives, in that order.
  pub collect_redis-describe_redis :
      {Client : Type 0} (stats : Client → RedisStats) (c : RedisCollector Client)
      → (ms : List Metric) × (collect_redis P stats c ≡ some ms)
        × (map desc_of ms ≡ describe_redis c)
  unfolding collect_redis describe_redis
  collect_redis-describe_redis stats c = search (Yields-cons, Yields-nil) depth 8
