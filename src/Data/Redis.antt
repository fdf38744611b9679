-- ===== src/Data/Redis.antt =====
-- pkg/data/redis.go.
pub mod Closed
mod Tests
use go_infrastructure.Prelude.{
  Option, none, some, ◌++◌, ℤ, pos, GoString, codes, is_empty, if◌then◌else◌,
}
use go_infrastructure.Client.Dial.{Opened, opened, not_opened}
use go_infrastructure.Data.{Pools, default_duration, collector_name}

pub record RedisConfig : Type 0 where
  pub name : GoString
  pub addr : GoString
  pub username : GoString
  pub password : GoString
  pub db : ℤ
  pub dial_timeout : ℤ
  pub read_timeout : ℤ
  pub write_timeout : ℤ
  pub ping_timeout : ℤ

-- The options that `redis.NewClient` gets.
pub record RedisOptions : Type 0 where
  pub addr : GoString
  pub username : GoString
  pub password : GoString
  pub db : ℤ
  pub dial_timeout : ℤ
  pub read_timeout : ℤ
  pub write_timeout : ℤ

pub redis_options : RedisConfig → RedisOptions
redis_options cfg = record {
  addr = cfg.addr;
  username = cfg.username;
  password = cfg.password;
  db = cfg.db;
  dial_timeout = default_duration cfg.dial_timeout (pos 3_000_000_000);
  read_timeout = default_duration cfg.read_timeout (pos 1_000_000_000);
  write_timeout = default_duration cfg.write_timeout (pos 1_000_000_000);
}

module _ {Conn W : Type 0} (new_client : RedisOptions → W → Conn × W) (pools : Pools Conn W) where
  redis_registered : Conn → Option GoString × W → Opened Conn × W
  redis_registered c (none, w) = (opened c, w)
  redis_registered c (some err, w) =
      (opened c, pools.warn (codes "redis pool collector register: " ++ err) w)

  -- After the ping: a pool that does not answer is closed.
  redis_pinged : GoString → Conn → Option GoString × W → Opened Conn × W
  unfolding redis_registered
  redis_pinged name c (some err, w) =
      (not_opened (codes "redis: ping: " ++ err), (pools.close c w).1)
  redis_pinged name c (none, w) =
      redis_registered c
        (pools.register c (collector_name name) (pools.info (codes "redis connected") w))

  pub new_redis : RedisConfig → W → Opened Conn × W
  unfolding redis_pinged redis_options
  new_redis cfg w =
      let (c, w1) = new_client (redis_options cfg) w in
      if is_empty cfg.addr
      then (not_opened (codes "redis: empty Addr"), w)
      else redis_pinged cfg.name c
          (pools.ping (default_duration cfg.ping_timeout (pos 3_000_000_000)) c w1)

  pub redis_cleanup : GoString → Conn → W → W
  redis_cleanup name c w =
      let (stuck, w1) = pools.close c (pools.unregister c (collector_name name) w) in
      elim stuck [
        | some err ↦ pools.error (codes "redis close: " ++ err) w1
        | none ↦ pools.info (codes "redis closed") w1
      ]
