-- ===== src/Data/Mysql/Closed.antt =====
-- What `NewMySQL` leaves behind where it returns an error.
use go_infrastructure.Prelude.{
  ◌≡◌, ◌≢◌, ◌⊎◌, inl, inr, refl, sym, ap, ◌∙◌, Bool-cases, Option, none, some, GoString, is_empty,
  true,
}
use go_infrastructure.Client.Dial.{Dialed, connected, refused, opened, not_opened}
use go_infrastructure.Data.{Pools}
use go_infrastructure.Data.Mysql.{
  MysqlConfig, SqlDriver, new_mysql, mysql_opened, mysql_pinged, mysql_registered,
}

module _ {Conn W : Type 0} (driver : SqlDriver Conn W) (pools : Pools Conn W) where
  opened-not_opened : (c : Conn) (err : GoString) → opened c ≢ not_opened err
  opened-not_opened c err e = cc

  mysql_registered_opened :
      (c : Conn) (r : Option GoString × W) → (mysql_registered driver pools c r).0 ≡ opened c
  unfolding mysql_registered
  mysql_registered_opened c (none, w) = refl
  mysql_registered_opened c (some err, w) = refl

  mysql_pinged-close :
      (name : GoString) (c : Conn) (r : Option GoString × W) (err : GoString) (w' : W)
      → mysql_pinged driver pools name c r ≡ (not_opened err, w')
      → (w2 : W) × (w' ≡ (pools.close c w2).1)
  unfolding mysql_pinged
  mysql_pinged-close name c (some e, w) err w' h = (w, ap (λ x. x.1) (sym h))
  mysql_pinged-close name c (none, w) err w' h =
      absurd (opened-not_opened c err (sym (mysql_registered_opened c _) ∙ ap (λ x. x.0) h))

  mysql_opened-close :
      (cfg : MysqlConfig) (r : Dialed Conn × W) (err : GoString) (w' : W)
      → mysql_opened driver pools cfg r ≡ (not_opened err, w')
      → ((e : GoString) × (r ≡ (refused e, w')))
        ⊎ ((c : Conn) × (w1 w2 : W) × (r ≡ (connected c, w1)) × (w' ≡ (pools.close c w2).1))
  unfolding mysql_opened
  mysql_opened-close cfg (refused e, w) err w' h = inl (e, ap (λ x. (refused e, x.1)) h)
  mysql_opened-close cfg (connected c, w) err w' h =
      let (w2, closed) = mysql_pinged-close cfg.name c _ err w' h in inr (c, w, w2, refl, closed)

  -- Where `NewMySQL` returns an error, the DSN is empty and it has done nothing, or the driver refused to open, or the pool
  -- that the driver opened has been closed as the last step: no error leaves a pool open.
  pub new_mysql-close :
      (cfg : MysqlConfig) (w w' : W) (err : GoString)
      → new_mysql driver pools cfg w ≡ (not_opened err, w')
      → ((is_empty cfg.dsn ≡ true) × (w' ≡ w))
        ⊎ (((e : GoString) × (driver.open_db cfg.dsn w ≡ (refused e, w')))
            ⊎ ((c : Conn) × (w1 w2 : W) × (driver.open_db cfg.dsn w ≡ (connected c, w1))
                × (w' ≡ (pools.close c w2).1)))
  unfolding new_mysql
  new_mysql-close cfg w w' err h = elim (Bool-cases (is_empty cfg.dsn)) [
    | inl e ↦ inl (e, ap (λ x. x.1) (sym (rw e at h)))
    | inr f ↦ inr (mysql_opened-close cfg (driver.open_db cfg.dsn w) err w' (rw f at h))
  ]
