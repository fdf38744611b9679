-- ===== src/Data/Mongo/Events.antt =====
-- The counters of MongoDB's pools after any run of events.
use go_infrastructure.Prelude.{
  ℕ, ◌+◌, ◌≡◌, arith, Bool, true, false, ◌&&◌, List, [], ◌∷◌, GoString, codes, is_empty,
  if◌then◌else◌,
}
use go_infrastructure.Metric.Mongo.{MongoCounters, Counter, value, eq_labels}
use go_infrastructure.Data.Mongo.{
  EventType, connection_created, connection_closed, get_started, get_failed, get_succeeded,
  connection_returned, other, PoolEvent, mongo_event_handler, count_event,
}

-- The hook at each event of a list, the first one first.
pub after : GoString → List PoolEvent → MongoCounters → MongoCounters
after name [] m = m
after name (e ∷ es) m = after name es (mongo_event_handler name e m)

-- The counter of a type of events; `other` has none.
abbrev pub counter_of : EventType → MongoCounters → Counter
counter_of connection_created m = m.connections_created
counter_of connection_closed m = m.connections_closed
counter_of get_started m = m.checkouts_started
counter_of get_failed m = m.checkouts_failed
counter_of get_succeeded m = m.checkouts_succeeded
counter_of connection_returned m = m.checkins
counter_of other m = []

-- The label values that an event of a type is counted under.
abbrev pub labels_of : GoString → EventType → GoString → List GoString
labels_of name connection_closed r = name ∷ (if is_empty r then codes "unknown" else r) ∷ []
labels_of name get_failed r = name ∷ (if is_empty r then codes "unknown" else r) ∷ []
labels_of name t r = name ∷ []

abbrev pub same_type : EventType → EventType → Bool
same_type connection_created connection_created = true
same_type connection_closed connection_closed = true
same_type get_started get_started = true
same_type get_failed get_failed = true
same_type get_succeeded get_succeeded = true
same_type connection_returned connection_returned = true
same_type _ _ = false

-- How many events of a type a list has that are counted under some label values.
unfoldable pub times : GoString → EventType → List GoString → List PoolEvent → ℕ
times name t ls [] = 0
times name t ls (e ∷ es) =
    (if same_type t e.event_type && eq_labels (labels_of name e.event_type e.reason) ls
      then 1
      else 0)
    + times name t ls es

count_event-value :
    (name r : GoString) (ls : List GoString) (m : MongoCounters) (t u : EventType)
    → value ls (counter_of t (count_event name u r m))
      ≡ (if same_type t u && eq_labels (labels_of name u r) ls then 1 else 0)
        + value ls (counter_of t m)
unfolding count_event
count_event-value name r ls m connection_created connection_created = ground arith
count_event-value name r ls m t u = ground arith

-- After any run of events each of the hook's counters, under any label values, has grown by the
-- number of events of its type that are counted under these: by the name of the pool and, for
-- closed connections and failed checkouts, by the reason of the event, "unknown" where it is empty.
-- Events of other types are counted nowhere.
pub after-value :
    (name : GoString) (ls : List GoString) (t : EventType) (es : List PoolEvent) (m : MongoCounters)
    → value ls (counter_of t (after name es m)) ≡ value ls (counter_of t m) + times name t ls es
unfolding after times mongo_event_handler
after-value name ls t [] m = omega arith
after-value name ls t (e ∷ es) m = omega (
  arith,
  after-value name ls t es (mongo_event_handler name e m),
  count_event-value name e.reason ls m t e.event_type,
)
