-- ===== src/Data.antt =====
-- pkg/data: the connection factories for MySQL, Redis and MongoDB. The drivers, the Prometheus registry and
-- the logger are parameters over a state `W`.
pub mod Mysql
pub mod Redis
pub mod Mongo
use go_infrastructure.Prelude.{Option, ℤ, pos, GoString, codes, is_empty, eq_ℤ, if◌then◌else◌}

-- What both factories do with a pool of connections; an error is its text. `register` and
-- `unregister` get the name of the pool's collector.
pub record Pools (Conn W : Type 0) : Type 0 where
  pub ping : ℤ → Conn → W → Option GoString × W
  pub close : Conn → W → Option GoString × W
  pub register : Conn → GoString → W → Option GoString × W
  pub unregister : Conn → GoString → W → W
  pub info : GoString → W → W
  pub warn : GoString → W → W
  pub error : GoString → W → W

abbrev pub default_int : ℤ → ℤ → ℤ
default_int v d = if eq_ℤ v (pos 0) then d else v

abbrev pub default_duration : ℤ → ℤ → ℤ
default_duration v d = if eq_ℤ v (pos 0) then d else v

-- The name that `NewSQLCollector` and `NewRedisCollector` give a collector.
abbrev pub collector_name : GoString → GoString
collector_name name = if is_empty name then codes "default" else name
