-- ===== src/Metric/Pool.antt =====
-- pkg/metric/db.go: the collectors of the pools of database/sql and of go-redis.
pub mod Scrape
mod Tests
use go_infrastructure.Prelude.{Option, List, [], ◌∷◌, ℤ, GoString, codes, is_empty, if◌then◌else◌}
use go_infrastructure.Metric.{Desc, ValueType, gauge, counter, Prometheus, pool_desc, sent}

-- The fields of `sql.DBStats` that are reported; `wait_duration` is in nanoseconds.
pub record SqlStats : Type 0 where
  pub open_connections : ℤ
  pub in_use : ℤ
  pub idle : ℤ
  pub wait_count : ℤ
  pub wait_duration : ℤ

-- The fields of `redis.PoolStats` that are reported.
pub record RedisStats : Type 0 where
  pub total_conns : ℤ
  pub idle_conns : ℤ
  pub stale_conns : ℤ
  pub hits : ℤ
  pub misses : ℤ
  pub timeouts : ℤ

abbrev pub desc_sql_open : Desc
desc_sql_open = pool_desc (codes "kris_db_pool_open_connections")

abbrev pub desc_sql_in_use : Desc
desc_sql_in_use = pool_desc (codes "kris_db_pool_in_use")

abbrev pub desc_sql_idle : Desc
desc_sql_idle = pool_desc (codes "kris_db_pool_idle")

abbrev pub desc_sql_wait_count : Desc
desc_sql_wait_count = pool_desc (codes "kris_db_pool_wait_count_total")

abbrev pub desc_sql_wait_seconds : Desc
desc_sql_wait_seconds = pool_desc (codes "kris_db_pool_wait_seconds_total")

abbrev pub desc_redis_total : Desc
desc_redis_total = pool_desc (codes "kris_redis_pool_total_connections")

abbrev pub desc_redis_idle : Desc
desc_redis_idle = pool_desc (codes "kris_redis_pool_idle_connections")

abbrev pub desc_redis_stale : Desc
desc_redis_stale = pool_desc (codes "kris_redis_pool_stale_connections")

abbrev pub desc_redis_hits : Desc
desc_redis_hits = pool_desc (codes "kris_redis_pool_hits_total")

abbrev pub desc_redis_misses : Desc
desc_redis_misses = pool_desc (codes "kris_redis_pool_misses_total")

abbrev pub desc_redis_timeouts : Desc
desc_redis_timeouts = pool_desc (codes "kris_redis_pool_timeouts_total")

-- A collector is its pool and its name; `Db` is the type of pools.
pub record SqlCollector (Db : Type 0) : Type 0 where
  pub db : Db
  pub name : GoString

pub record RedisCollector (Client : Type 0) : Type 0 where
  pub cli : Client
  pub name : GoString

module _ {Db : Type 0} where
  unfoldable pub new_sql_collector : Db → GoString → SqlCollector Db
  new_sql_collector db name = record {
    db = db;
    name = if is_empty name then codes "default" else name;
  }

  unfoldable pub new_redis_collector : Db → GoString → RedisCollector Db
  new_redis_collector cli name = record {
    cli = cli;
    name = if is_empty name then codes "default" else name;
  }

  -- The two methods `Describe`.
  unfoldable pub describe_sql : SqlCollector Db → List Desc
  describe_sql c =
      desc_sql_open ∷ desc_sql_in_use ∷ desc_sql_idle ∷ desc_sql_wait_count ∷ desc_sql_wait_seconds
      ∷ []

  unfoldable pub describe_redis : RedisCollector Db → List Desc
  describe_redis c =
      desc_redis_total ∷ desc_redis_idle ∷ desc_redis_stale ∷ desc_redis_hits ∷ desc_redis_misses
      ∷ desc_redis_timeouts ∷ []

  module _ (P : Prometheus) where
    open P use {Metric, of_int, seconds, const_metric}

    -- The two methods `Collect`; `stats` reads a pool at the time of the scrape.
    pub collect_sql : (Db → SqlStats) → SqlCollector Db → Option (List Metric)
    unfolding sent
    collect_sql stats c =
        let s = stats c.db in
        sent (
          const_metric desc_sql_open gauge (of_int s.open_connections) (c.name ∷ [])
          ∷ const_metric desc_sql_in_use gauge (of_int s.in_use) (c.name ∷ [])
          ∷ const_metric desc_sql_idle gauge (of_int s.idle) (c.name ∷ [])
          ∷ const_metric desc_sql_wait_count counter (of_int s.wait_count) (c.name ∷ [])
          ∷ const_metric desc_sql_wait_seconds counter (seconds s.wait_duration) (c.name ∷ [])
          ∷ [])

    pub collect_redis : (Db → RedisStats) → RedisCollector Db → Option (List Metric)
    unfolding sent
    collect_redis stats c =
        let s = stats c.cli in
        sent (
          const_metric desc_redis_total gauge (of_int s.total_conns) (c.name ∷ [])
          ∷ const_metric desc_redis_idle gauge (of_int s.idle_conns) (c.name ∷ [])
          ∷ const_metric desc_redis_stale gauge (of_int s.stale_conns) (c.name ∷ [])
          ∷ const_metric desc_redis_hits counter (of_int s.hits) (c.name ∷ [])
          ∷ const_metric desc_redis_misses counter (of_int s.misses) (c.name ∷ [])
          ∷ const_metric desc_redis_timeouts counter (of_int s.timeouts) (c.name ∷ [])
          ∷ [])
