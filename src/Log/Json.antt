-- ===== src/Log/Json.antt =====
-- pkg/log/json.go. The JSON encoder and the writer are parameters over a state `W`, and so is
-- `level.String()`; an object is an association list.
pub mod Fields
mod Tests
use go_infrastructure.Prelude.{Option, none, some, List, [], ◌∷◌, ◌++◌, GoString, codes, insert}
use go_infrastructure.Log.Level.{Level, Value, text, any}

abbrev pub Object : Type 0 → Type 0
Object V = List (GoString × Value V)

module _ {V : Type 0} where
  -- The loop over the keys and values, after the padding to an even length; a key that is no string
  -- is skipped with its value.
  collect : List (Value V) → Object V → Object V
  collect [] obj = obj
  collect (k ∷ []) obj = obj
  collect (text k ∷ v ∷ kvs) obj = collect kvs (insert k v obj)
  collect (any k ∷ v ∷ kvs) obj = collect kvs obj

  unfoldable pub padded : List (Value V) → List (Value V)
  padded [] = []
  padded (k ∷ []) = k ∷ text (codes "MISSING_VALUE") ∷ []
  padded (k ∷ v ∷ kvs) = k ∷ v ∷ padded kvs

  -- The object of a call of `Log`; `none` where it writes nothing.
  pub log_object : (Level → GoString) → Level → List (Value V) → Option (Object V)
  unfolding collect padded
  log_object level_text level [] = none
  log_object level_text level (k ∷ kvs) =
      some (collect (padded (k ∷ kvs)) (insert (codes "level") (text (level_text level)) []))

  -- What `NewJSON`, `NewJSONTo` and `New` bind to every call of their loggers, given the valuers of
  -- the time and of the caller.
  unfoldable pub bound_fields : Value V → Value V → GoString → GoString → GoString → List (Value V)
  bound_fields timestamp caller service_name version instance_id =
      text (codes "ts")
      ∷ timestamp
      ∷ text (codes "caller")
      ∷ caller
      ∷ text (codes "service.id")
      ∷ text instance_id
      ∷ text (codes "service.name")
      ∷ text service_name
      ∷ text (codes "service.version")
      ∷ text version
      ∷ []

-- `encode` is `json.NewEncoder(w).Encode`, which answers with an error's text.
module _ {V W : Type 0} (encode : Object V → W → Option GoString × W) where
  pub log_json : (Level → GoString) → Level → List (Value V) → W → Option GoString × W
  unfolding log_object
  log_json level_text level kvs w = elim (log_object level_text level kvs) [
    | none ↦ (none, w)
    | some obj ↦ encode obj w
  ]
