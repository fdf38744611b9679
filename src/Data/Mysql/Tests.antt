-- ===== src/Data/Mysql/Tests.antt =====
-- `NewMySQL` at a database that answers no ping, and two pools in one process.
use go_infrastructure.Prelude.{
  ℕ, suc, ◌-◌, ◌≡◌, ◌⊎◌, refl, Bool, true, false, Option, none, some, pos, GoString, codes,
}
use go_infrastructure.Client.Dial.{connected, refused, opened, not_opened}
use go_infrastructure.Data.{Pools}
use go_infrastructure.Data.Mysql.{
  MysqlConfig, SqlDriver, new_mysql, mysql_opened, mysql_pinged, mysql_cleanup,
}
use go_infrastructure.Metric.Registry.{Registry}
use go_infrastructure.Metric.Pool.{new_sql_collector, describe_sql}
use go_infrastructure.Data.Mysql.Shared.{sql_pools, LeavesRegistry, new_mysql-mysql_cleanup}
use go_infrastructure.Data.Mysql.Closed.{new_mysql-close}

-- The world counts the open connections; no ping is answered.
abbrev dead : Pools ℕ ℕ
dead = record {
  ping = λ d c w. (some (codes "timeout"), w);
  close = λ c w. (none, w - 1);
  register = λ c name w. (none, w);
  unregister = λ c name w. w;
  info = λ m w. w;
  warn = λ m w. w;
  error = λ m w. w;
}

abbrev driver : SqlDriver ℕ ℕ
driver = record { open_db = λ dsn w. (connected 7, suc w); configure = λ a b d c w. w }

abbrev config : MysqlConfig
config = record {
  name = codes "main";
  dsn = codes "root@/app";
  max_open_conns = pos 0;
  max_idle_conns = pos 0;
  conn_max_lifetime = pos 0;
  ping_timeout = pos 0;
}

new_mysql_run : new_mysql driver dead config 4 ≡ (not_opened (codes "mysql: ping: timeout"), 4)
unfolding new_mysql mysql_opened mysql_pinged
new_mysql_run = refl

new_mysql-close_run :
    ((◌≡◌ {A = Bool} false true) × (◌≡◌ {A = ℕ} 4 4))
    ⊎ (((e : GoString) × (driver.open_db (codes "root@/app") 4 ≡ (refused e, 4)))
        ⊎ ((c : ℕ) × (w1 w2 : ℕ) × (driver.open_db (codes "root@/app") 4 ≡ (connected c, w1))
            × (4 ≡ (dead.close c w2).1)))
new_mysql-close_run =
    new_mysql-close driver dead config 4 4 (codes "mysql: ping: timeout") new_mysql_run

-- A process whose only collectors are those of SQL pools: whether one of them is registered.
abbrev register_one : Bool → Option GoString × Bool
register_one true = (some (codes "duplicate"), true)
register_one false = (none, true)

register_one_again : (w : Bool) → w ≡ true → (err : GoString) × (register_one w ≡ (some err, w))
register_one_again true e = (codes "duplicate", refl)
register_one_again false e = cc

abbrev registry : Registry Bool
registry = record {
  holds = λ ds w. w;
  register = λ ds w. register_one w;
  unregister = λ ds w. false;
  register_again = λ ds w. register_one_again w;
  unregister_lem = λ ds w. refl;
}

abbrev lively : Pools ℕ Bool
lively = record {
  ping = λ d c w. (none, w);
  close = λ c w. (none, w);
  register = λ c name w. (none, w);
  unregister = λ c name w. w;
  info = λ m w. w;
  warn = λ m w. w;
  error = λ m w. w;
}

abbrev second_driver : SqlDriver ℕ Bool
second_driver = record { open_db = λ dsn w. (connected 8, w); configure = λ a b d c w. w }

quiet : LeavesRegistry registry second_driver lively
quiet = record {
  open_db = λ ds s w. refl;
  configure = λ ds a b d c w. refl;
  ping = λ ds d c w. refl;
  close = λ ds c w. refl;
  info = λ ds s w. refl;
  warn = λ ds s w. refl;
  error = λ ds s w. refl;
}

second_run : new_mysql second_driver (sql_pools registry lively) config true ≡ (opened 8, true)
unfolding new_mysql mysql_opened mysql_pinged
second_run = refl

new_mysql-mysql_cleanup_example :
    (registry.holds (describe_sql {Db = ℕ} (new_sql_collector 7 (codes "first"))) true ≡ true)
    × (registry.holds
          (describe_sql {Db = ℕ} (new_sql_collector 7 (codes "first")))
          (mysql_cleanup second_driver (sql_pools registry lively) (codes "main") 8 true)
        ≡ false)
new_mysql-mysql_cleanup_example =
    new_mysql-mysql_cleanup registry second_driver lively quiet config 8 7 (codes "first") true true
      refl second_run
