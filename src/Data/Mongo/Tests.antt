-- ===== src/Data/Mongo/Tests.antt =====
-- `NewMongo` at a server that answers no ping, and its hook at three events.
use go_infrastructure.Prelude.{
  ℕ, suc, ◌+◌, ◌-◌, ◌≡◌, ◌⊎◌, refl, Bool, true, false, none, some, List, [], ◌∷◌, pos, GoString,
  codes, eq_str,
}
use go_infrastructure.Client.Dial.{connected, not_opened}
use go_infrastructure.Metric.Mongo.{MongoCounters, value}
use go_infrastructure.Data.Mongo.{
  MongoConfig, MongoDriver, new_mongo, mongo_connected, mongo_pinged, PoolEvent, connection_created,
  connection_closed, other,
}
use go_infrastructure.Data.Mongo.Closed.{IsDisconnected, new_mongo-IsDisconnected}
use go_infrastructure.Data.Mongo.Events.{after, times, counter_of, after-value}

-- The world counts the connected clients; no ping is answered.
abbrev driver : MongoDriver ℕ ℕ ℕ
driver = record {
  connect = λ d uri hook w. (connected 7, suc w);
  ping = λ d c w. (some (codes "timeout"), w);
  disconnect = λ d c w. (none, w - 1);
  database_of = λ c name. c;
  info = λ m w. w;
  error = λ m w. w;
}

abbrev config : MongoConfig
config = record {
  name = codes "";
  uri = codes "mongodb://localhost";
  database = codes "app";
  connect_timeout = pos 0;
  ping_timeout = pos 0;
}

new_mongo_run : new_mongo driver config 4 ≡ (not_opened (codes "mongo: ping: timeout"), 4)
unfolding new_mongo mongo_connected mongo_pinged
new_mongo_run = refl

new_mongo-IsDisconnected_run :
    ((◌≡◌ {A = Bool} false true) × (◌≡◌ {A = ℕ} 4 4)) ⊎ IsDisconnected driver (connected 7, 5) 4
new_mongo-IsDisconnected_run =
    new_mongo-IsDisconnected driver config 4 4 (codes "mongo: ping: timeout") new_mongo_run

abbrev blank : MongoCounters
blank = record {
  connections_created = [];
  connections_closed = [];
  checkouts_started = [];
  checkouts_failed = [];
  checkouts_succeeded = [];
  checkins = [];
}

abbrev events : List PoolEvent
events =
    record { event_type = connection_created; reason = [] }
    ∷ record { event_type = connection_closed; reason = [] }
    ∷ record { event_type = other; reason = [] }
    ∷ record { event_type = connection_closed; reason = codes "idle" }
    ∷ []

abbrev unknown : List GoString
unknown = codes "main" ∷ codes "unknown" ∷ []

after-value_example :
    value unknown (counter_of connection_closed (after (codes "main") events blank))
    ≡ value unknown (counter_of connection_closed blank)
      + times (codes "main") connection_closed unknown events
after-value_example = after-value (codes "main") unknown connection_closed events blank

times_run : times (codes "main") connection_closed unknown events ≡ 1
unfolding times eq_str
times_run = refl
