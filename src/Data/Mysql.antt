-- ===== src/Data/Mysql.antt =====
-- pkg/data/mysql.go.
pub mod Closed
pub mod Shared
mod Tests
use go_infrastructure.Prelude.{
  Option, none, some, ◌++◌, ℤ, pos, GoString, codes, is_empty, if◌then◌else◌,
}
use go_infrastructure.Client.Dial.{Dialed, connected, refused, Opened, opened, not_opened}
use go_infrastructure.Data.{Pools, default_int, default_duration, collector_name}

pub record MysqlConfig : Type 0 where
  pub name : GoString
  pub dsn : GoString
  pub max_open_conns : ℤ
  pub max_idle_conns : ℤ
  pub conn_max_lifetime : ℤ
  pub ping_timeout : ℤ

-- `sql.Open`, and the three settings of a pool.
pub record SqlDriver (Conn W : Type 0) : Type 0 where
  pub open_db : GoString → W → Dialed Conn × W
  pub configure : ℤ → ℤ → ℤ → Conn → W → W

module _ {Conn W : Type 0} (driver : SqlDriver Conn W) (pools : Pools Conn W) where
  mysql_registered : Conn → Option GoString × W → Opened Conn × W
  mysql_registered c (none, w) = (opened c, w)
  mysql_registered c (some err, w) =
      (opened c, pools.warn (codes "mysql pool collector register: " ++ err) w)

  -- After the ping: a pool that does not answer is closed.
  mysql_pinged : GoString → Conn → Option GoString × W → Opened Conn × W
  unfolding mysql_registered
  mysql_pinged name c (some err, w) =
      (not_opened (codes "mysql: ping: " ++ err), (pools.close c w).1)
  mysql_pinged name c (none, w) =
      mysql_registered c
        (pools.register c (collector_name name) (pools.info (codes "mysql connected") w))

  mysql_opened : MysqlConfig → Dialed Conn × W → Opened Conn × W
  unfolding mysql_pinged
  mysql_opened cfg (refused err, w) = (not_opened (codes "mysql: open: " ++ err), w)
  mysql_opened cfg (connected c, w) =
      let w1 =
        driver.configure (default_int cfg.max_open_conns (pos 10))
          (default_int cfg.max_idle_conns (pos 5))
          (default_duration cfg.conn_max_lifetime (pos 1_800_000_000_000)) c w in
      mysql_pinged cfg.name c
        (pools.ping (default_duration cfg.ping_timeout (pos 3_000_000_000)) c w1)

  pub new_mysql : MysqlConfig → W → Opened Conn × W
  unfolding mysql_opened
  new_mysql cfg w =
      if is_empty cfg.dsn
      then (not_opened (codes "mysql: empty DSN"), w)
      else mysql_opened cfg (driver.open_db cfg.dsn w)

  pub mysql_cleanup : GoString → Conn → W → W
  mysql_cleanup name c w =
      let (stuck, w1) = pools.close c (pools.unregister c (collector_name name) w) in
      elim stuck [
        | some err ↦ pools.error (codes "mysql close: " ++ err) w1
        | none ↦ pools.info (codes "mysql closed") w1
      ]
