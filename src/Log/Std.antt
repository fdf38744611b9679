-- ===== src/Log/Std.antt =====
-- pkg/log/log.go and the constructors of json.go: what `log.With` binds to each logger.
use go_infrastructure.Prelude.{List, [], ◌∷◌, GoString, codes}

-- A bound value: a text, or one of the valuers that kratos computes for each line.
pub data Bound : Type 0 where
  text : GoString → Bound
  default_timestamp default_caller : Bound

-- Where a logger writes: the standard logger of kratos on a writer, or the JSON sink on one.
pub data Sink (Out : Type 0) : Type 0 where
  std json : Out → Sink Out

pub record Bounded (Out : Type 0) : Type 0 where
  pub sink : Sink Out
  pub bound : List (GoString × Bound)

-- The fields that every constructor binds, in their order.
pub identity : (name version id : GoString) → List (GoString × Bound)
identity name version id =
    (codes "ts", default_timestamp)
    ∷ (codes "caller", default_caller)
    ∷ (codes "service.id", text id)
    ∷ (codes "service.name", text name)
    ∷ (codes "service.version", text version)
    ∷ []

-- `New`, on the standard output.
unfoldable pub new : {Out : Type 0} → Out → (name version id : GoString) → Bounded Out
unfolding identity
new stdout name version id = record { sink = std stdout; bound = identity name version id }

-- `NewJSONTo`, and `NewJSON` on the standard output.
unfoldable pub new_json_to : {Out : Type 0} → Out → (name version id : GoString) → Bounded Out
unfolding identity
new_json_to w name version id = record { sink = json w; bound = identity name version id }

unfoldable pub new_json : {Out : Type 0} → Out → (name version id : GoString) → Bounded Out
unfolding identity
new_json stdout name version id = record { sink = json stdout; bound = identity name version id }
