-- ===== src/Data/Mongo/Closed.antt =====
-- What `NewMongo` leaves behind where it returns an error.
use go_infrastructure.Prelude.{
  ◌≡◌, ◌≢◌, ◌⊎◌, inl, inr, sym, ap, Bool-cases, true, Option, none, some, pos, GoString, codes,
  is_empty, if◌then◌else◌,
}
use go_infrastructure.Client.Dial.{Dialed, connected, refused, opened, not_opened}
use go_infrastructure.Data.Mongo.{
  MongoConfig, MongoDriver, MongoBundle, new_mongo, mongo_connected, mongo_pinged,
  mongo_event_handler,
}
use go_infrastructure.Data.{default_duration}

module _ {Client Database W : Type 0} (driver : MongoDriver Client Database W) where
  -- That a client of a world has been disconnected as the last step before another world.
  abbrev pub IsDisconnected : Dialed Client × W → W → Type 0
  IsDisconnected (refused e, w1) w' = w' ≡ w1
  IsDisconnected (connected c, w1) w' = (w2 : W) × (w' ≡ (driver.disconnect none c w2).1)

  opened-not_opened : (b : MongoBundle Client Database) (err : GoString) → opened b ≢ not_opened err
  opened-not_opened b err e = cc

  mongo_pinged-disconnect :
      (cfg : MongoConfig) (c : Client) (r : Option GoString × W) (err : GoString) (w' : W)
      → mongo_pinged driver cfg c r ≡ (not_opened err, w')
      → (w2 : W) × (w' ≡ (driver.disconnect none c w2).1)
  unfolding mongo_pinged
  mongo_pinged-disconnect cfg c (some e, w) err w' h = (w, ap (λ x. x.1) (sym h))
  mongo_pinged-disconnect cfg c (none, w) err w' h =
      absurd (opened-not_opened _ err (ap (λ x. x.0) h))

  mongo_connected-IsDisconnected :
      (cfg : MongoConfig) (r : Dialed Client × W) (err : GoString) (w' : W)
      → mongo_connected driver cfg r ≡ (not_opened err, w')
      → IsDisconnected r w'
  unfolding mongo_connected
  mongo_connected-IsDisconnected cfg (refused e, w) err w' h = ap (λ x. x.1) (sym h)
  mongo_connected-IsDisconnected cfg (connected c, w) err w' h =
      mongo_pinged-disconnect cfg c _ err w' h

  -- Where `NewMongo` returns an error, the URI is empty and it has done nothing, or the driver refused
  -- to connect and it has done nothing more, or the client that was connected, with the events of its
  -- pools counted under the configured name ("default" where that is empty), has been disconnected as
  -- the last step.
  pub new_mongo-IsDisconnected :
      (cfg : MongoConfig) (w w' : W) (err : GoString)
      → new_mongo driver cfg w ≡ (not_opened err, w')
      → ((is_empty cfg.uri ≡ true) × (w' ≡ w))
        ⊎ IsDisconnected
            (driver.connect
              (default_duration cfg.connect_timeout (pos 10_000_000_000))
              cfg.uri
              (mongo_event_handler (if is_empty cfg.name then codes "default" else cfg.name))
              w)
            w'
  unfolding new_mongo
  new_mongo-IsDisconnected cfg w w' err h = elim (Bool-cases (is_empty cfg.uri)) [
    | inl e ↦ inl (e, ap (λ x. x.1) (sym (rw e at h)))
    | inr f ↦ inr (mongo_connected-IsDisconnected cfg _ err w' (rw f at h))
  ]
