-- ===== src/Data/Mongo.antt =====
-- pkg/data/mongo.go. The driver and the logger are parameters over a state `W`.
pub mod Closed
pub mod Events
mod Tests
use go_infrastructure.Prelude.{
  Option, none, some, List, [], ◌∷◌, ◌++◌, ℤ, pos, GoString, codes, is_empty, if◌then◌else◌,
}
use go_infrastructure.Client.Dial.{Dialed, connected, refused, Opened, opened, not_opened}
use go_infrastructure.Metric.Mongo.{MongoCounters, inc}
use go_infrastructure.Data.{default_duration}

pub record MongoConfig : Type 0 where
  pub name : GoString
  pub uri : GoString
  pub database : GoString
  pub connect_timeout : ℤ
  pub ping_timeout : ℤ

pub record MongoBundle (Client Database : Type 0) : Type 0 where
  pub client : Client
  pub database : Database

-- The event types of the driver's pools; those that the hook does not name are `other`.
pub data EventType : Type 0 where
  connection_created connection_closed get_started get_failed get_succeeded connection_returned
        other :
      EventType

pub record PoolEvent : Type 0 where
  pub event_type : EventType
  pub reason : GoString

abbrev reason_or_unknown : GoString → GoString
reason_or_unknown r = if is_empty r then codes "unknown" else r

count_event : GoString → EventType → GoString → MongoCounters → MongoCounters
count_event name connection_created r m = record m {
  connections_created = inc (name ∷ []) m.connections_created;
}
count_event name connection_closed r m = record m {
  connections_closed = inc (name ∷ reason_or_unknown r ∷ []) m.connections_closed;
}
count_event name get_started r m = record m {
  checkouts_started = inc (name ∷ []) m.checkouts_started;
}
count_event name get_failed r m = record m {
  checkouts_failed = inc (name ∷ reason_or_unknown r ∷ []) m.checkouts_failed;
}
count_event name get_succeeded r m = record m {
  checkouts_succeeded = inc (name ∷ []) m.checkouts_succeeded;
}
count_event name connection_returned r m = record m { checkins = inc (name ∷ []) m.checkins }
count_event name other r m = m

pub mongo_event_handler : GoString → PoolEvent → MongoCounters → MongoCounters
unfolding count_event
mongo_event_handler name e m = count_event name e.event_type e.reason m

-- The driver: a client is connected with a URI and a hook for the events of its pools, within a
-- timeout; errors are texts.
pub record MongoDriver (Client Database W : Type 0) : Type 0 where
  pub connect : ℤ → GoString → (PoolEvent → MongoCounters → MongoCounters) → W → Dialed Client × W
  pub ping : ℤ → Client → W → Option GoString × W
  -- The timeout of the context is `none` where it has none.
  pub disconnect : Option ℤ → Client → W → Option GoString × W
  pub database_of : Client → GoString → Database
  pub info : GoString → W → W
  pub error : GoString → W → W

module _ {Client Database W : Type 0} (driver : MongoDriver Client Database W) where
  -- After the ping: a client that gets no answer is disconnected.
  mongo_pinged :
      MongoConfig → Client → Option GoString × W → Opened (MongoBundle Client Database) × W
  mongo_pinged cfg c (some err, w) =
      (not_opened (codes "mongo: ping: " ++ err), (driver.disconnect none c w).1)
  mongo_pinged cfg c (none, w) = (
    opened (record { client = c; database = driver.database_of c cfg.database }),
    driver.info (codes "mongo connected") w,
  )

  mongo_connected : MongoConfig → Dialed Client × W → Opened (MongoBundle Client Database) × W
  unfolding mongo_pinged
  mongo_connected cfg (refused err, w) = (not_opened (codes "mongo: connect: " ++ err), w)
  mongo_connected cfg (connected c, w) =
      mongo_pinged cfg c (driver.ping (default_duration cfg.ping_timeout (pos 3_000_000_000)) c w)

  pub new_mongo : MongoConfig → W → Opened (MongoBundle Client Database) × W
  unfolding mongo_connected mongo_event_handler
  new_mongo cfg w =
      let name = if is_empty cfg.name then codes "default" else cfg.name in
      let timeout = default_duration cfg.connect_timeout (pos 10_000_000_000) in
      if is_empty cfg.uri
      then (not_opened (codes "mongo: empty URI"), w)
      else mongo_connected cfg (driver.connect timeout cfg.uri (mongo_event_handler name) w)

  pub mongo_cleanup : Client → W → W
  mongo_cleanup c w =
      let (stuck, w1) = driver.disconnect (some (pos 5_000_000_000)) c w in
      elim stuck [
        | some err ↦ driver.error (codes "mongo disconnect: " ++ err) w1
        | none ↦ driver.info (codes "mongo disconnected") w1
      ]
