-- ===== src/Metric/Pool/Tests.antt =====
-- The collectors at a Prometheus client whose metrics are descriptors with one value.
use go_infrastructure.Prelude.{
  ℕ, ◌≡◌, refl, Option, none, some, List, [], ◌∷◌, map, ℤ, pos, GoString,
}
use go_infrastructure.Metric.{Desc, ValueType, Prometheus}
use go_infrastructure.Metric.Pool.{
  SqlStats, RedisStats, new_sql_collector, new_redis_collector, describe_sql, describe_redis,
  collect_sql, collect_redis,
}
use go_infrastructure.Metric.Pool.Scrape.{collect_sql-describe_sql, collect_redis-describe_redis}

-- A metric with another number of label values panics.
abbrev one_label : Desc → ValueType → ℤ → List GoString → Option (Desc × ℤ)
one_label d k x (v ∷ []) = some (d, x)
one_label d k x _ = none

abbrev client : Prometheus
client = record {
  Float = ℤ;
  of_int = λ x. x;
  seconds = λ d. d;
  Metric = Desc × ℤ;
  desc_of = λ m. m.0;
  const_metric = one_label;
  const_metric_one = λ n l v k x. ((record { name = n; labels = l ∷ [] }, x), refl, refl);
}

abbrev sql_stats : ℕ → SqlStats
sql_stats db = record {
  open_connections = pos db;
  in_use = pos 1;
  idle = pos 2;
  wait_count = pos 0;
  wait_duration = pos 0;
}

abbrev redis_stats : ℕ → RedisStats
redis_stats cli = record {
  total_conns = pos cli;
  idle_conns = pos 1;
  stale_conns = pos 0;
  hits = pos 5;
  misses = pos 2;
  timeouts = pos 0;
}

collect_sql-describe_sql_run :
    (ms : List (Desc × ℤ)) × (collect_sql client sql_stats (new_sql_collector 3 []) ≡ some ms)
    × (map (λ m. m.0) ms ≡ describe_sql {Db = ℕ} (new_sql_collector 3 []))
collect_sql-describe_sql_run = collect_sql-describe_sql client sql_stats (new_sql_collector 3 [])

collect_redis-describe_redis_run :
    (ms : List (Desc × ℤ)) × (collect_redis client redis_stats (new_redis_collector 3 []) ≡ some ms)
    × (map (λ m. m.0) ms ≡ describe_redis {Db = ℕ} (new_redis_collector 3 []))
collect_redis-describe_redis_run =
    collect_redis-describe_redis client redis_stats (new_redis_collector 3 [])
