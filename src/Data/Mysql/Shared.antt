-- ===== src/Data/Mysql/Shared.antt =====
-- Two MySQL pools in one process, which share the registry of Prometheus.
use go_infrastructure.Prelude.{
  ◌≡◌, refl, sym, ap, ◌∙◌, Bool-cases, Option-cases, inl, inr, true, false, Option, none, some,
  List, GoString, ℤ, is_empty,
}
use go_infrastructure.Client.Dial.{Dialed, connected, refused, opened}
use go_infrastructure.Metric.{Desc}
use go_infrastructure.Metric.Pool.{new_sql_collector, describe_sql}
use go_infrastructure.Metric.Registry.{Registry}
use go_infrastructure.Data.{Pools}
use go_infrastructure.Data.Mysql.{
  MysqlConfig, SqlDriver, new_mysql, mysql_opened, mysql_pinged, mysql_registered, mysql_cleanup,
}

module _ {Conn W : Type 0} (reg : Registry W) (base : Pools Conn W) where
  -- The operations on pools with the collectors of pkg/metric at the registry.
  abbrev pub sql_pools : Pools Conn W
  sql_pools = record base {
    register = λ c name w. reg.register (describe_sql (new_sql_collector c name)) w;
    unregister = λ c name w. reg.unregister (describe_sql (new_sql_collector c name)) w;
  }

-- That the driver and the logger leave the registry alone.
pub record LeavesRegistry {Conn W : Type 0} (reg : Registry W) (driver : SqlDriver Conn W)
    (base : Pools Conn W) : Type 0 where
  pub open_db :
      (ds : List Desc) (s : GoString) (w : W) → reg.holds ds (driver.open_db s w).1 ≡ reg.holds ds w
  pub configure :
      (ds : List Desc) (a b d : ℤ) (c : Conn) (w : W)
      → reg.holds ds (driver.configure a b d c w) ≡ reg.holds ds w
  pub ping :
      (ds : List Desc) (d : ℤ) (c : Conn) (w : W)
      → reg.holds ds (base.ping d c w).1 ≡ reg.holds ds w
  pub close : (ds : List Desc) (c : Conn) (w : W) → reg.holds ds (base.close c w).1 ≡ reg.holds ds w
  pub info : (ds : List Desc) (s : GoString) (w : W) → reg.holds ds (base.info s w) ≡ reg.holds ds w
  pub warn : (ds : List Desc) (s : GoString) (w : W) → reg.holds ds (base.warn s w) ≡ reg.holds ds w
  pub error :
      (ds : List Desc) (s : GoString) (w : W) → reg.holds ds (base.error s w) ≡ reg.holds ds w

module _ {Conn W : Type 0} (reg : Registry W) (driver : SqlDriver Conn W) (base : Pools Conn W)
    (quiet : LeavesRegistry reg driver base) where
  -- The descriptors of every collector of a SQL pool.
  abbrev pub sql_descs : Conn → GoString → List Desc
  sql_descs c name = describe_sql (new_sql_collector c name)

  mysql_registered-holds :
      (ds : List Desc) (c : Conn) (r : Option GoString × W)
      → reg.holds ds (mysql_registered driver (sql_pools reg base) c r).1 ≡ reg.holds ds r.1
  unfolding mysql_registered
  mysql_registered-holds ds c (none, w) = refl
  mysql_registered-holds ds c (some err, w) = quiet.warn ds _ w

  -- Registration where a collector of the same descriptors is registered.
  register-holds :
      (ds : List Desc) (w : W) → reg.holds ds w ≡ true → reg.holds ds (reg.register ds w).1 ≡ true
  register-holds ds w h = let (err, e) = reg.register_again ds w h in rw e h

  mysql_pinged-holds :
      (name : GoString) (c d : Conn) (r : Option GoString × W)
      → reg.holds (sql_descs d name) r.1 ≡ true
      → reg.holds (sql_descs d name) (mysql_pinged driver (sql_pools reg base) name c r).1 ≡ true
  unfolding mysql_pinged describe_sql
  mysql_pinged-holds name c d (some err, w) h = quiet.close _ c w ∙ h
  mysql_pinged-holds name c d (none, w) h =
      mysql_registered-holds _ c _ ∙ register-holds _ _ (quiet.info _ _ w ∙ h)

  mysql_opened-holds :
      (cfg : MysqlConfig) (d : Conn) (r : Dialed Conn × W)
      → reg.holds (sql_descs d cfg.name) r.1 ≡ true
      → reg.holds (sql_descs d cfg.name) (mysql_opened driver (sql_pools reg base) cfg r).1 ≡ true
  unfolding mysql_opened
  mysql_opened-holds cfg d (refused err, w) h = h
  mysql_opened-holds cfg d (connected c, w) h =
      mysql_pinged-holds cfg.name c d _ (quiet.ping _ _ c _ ∙ (quiet.configure _ _ _ _ c w ∙ h))

  new_mysql-holds :
      (cfg : MysqlConfig) (d : Conn) (w : W)
      → reg.holds (sql_descs d cfg.name) w ≡ true
      → reg.holds (sql_descs d cfg.name) (new_mysql driver (sql_pools reg base) cfg w).1 ≡ true
  unfolding new_mysql
  new_mysql-holds cfg d w h = elim (Bool-cases (is_empty cfg.dsn)) [
    | inl e ↦ rw e h
    | inr f ↦ rw f (mysql_opened-holds cfg d _ (quiet.open_db _ _ w ∙ h))
  ]

  mysql_cleanup-holds :
      (name : GoString) (c d : Conn) (w : W)
      → reg.holds (sql_descs d name) (mysql_cleanup driver (sql_pools reg base) name c w) ≡ false
  unfolding mysql_cleanup describe_sql
  mysql_cleanup-holds name c d w =
      elim (Option-cases (base.close c (reg.unregister (sql_descs d name) w)).0) [
        | inl n ↦
            rw (n, mysql_cleanup) (quiet.info _ _ _ ∙ (quiet.close _ c _ ∙ reg.unregister_lem _ w))
        | inr (err, s) ↦
            rw (s, mysql_cleanup) (quiet.error _ _ _ ∙ (quiet.close _ c _ ∙ reg.unregister_lem _ w))
      ]

  -- Where the collector of a pool `d` is registered and `NewMySQL` opens a second pool, under any
  -- name, then the collector of `d` is still registered after it, and the cleanup of the second pool
  -- takes it out: from then on the metrics of `d`, which is still open, are no longer scraped.
  pub new_mysql-mysql_cleanup :
      (cfg : MysqlConfig) (c d : Conn) (first : GoString) (w w2 : W)
      → reg.holds (sql_descs d first) w ≡ true
      → new_mysql driver (sql_pools reg base) cfg w ≡ (opened c, w2)
      → (reg.holds (sql_descs d first) w2 ≡ true)
        × (reg.holds (sql_descs d first) (mysql_cleanup driver (sql_pools reg base) cfg.name c w2)
            ≡ false)
  unfolding describe_sql
  new_mysql-mysql_cleanup cfg c d first w w2 h e = (
    ap (λ x. reg.holds (sql_descs d first) x.1) (sym e) ∙ new_mysql-holds cfg d w h,
    mysql_cleanup-holds cfg.name c d w2,
  )
