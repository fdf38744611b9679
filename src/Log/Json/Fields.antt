-- ===== src/Log/Json/Fields.antt =====
-- The fields of a JSON line, also of a record of slog.
use go_infrastructure.Prelude.{
  ◌≡◌, refl, ap, ◌∙◌, Option, none, some, List, [], ◌∷◌, GoString, codes, eq_str, lookup, insert,
  lookup-insert, ◌++◌, if◌then◌else◌,
}
use go_infrastructure.Log.Level.{Level, Value, text, any}
use go_infrastructure.Log.Slog.{Record, slog_handler, handle, slog_to_kratos}
use go_infrastructure.Log.Slog.Bound.{Derive, derived, scoped, flat, handle-scoped}
use go_infrastructure.Log.Json.{Object, collect, padded, log_object, bound_fields}

module _ {V : Type 0} where
  -- The value of the last field of a name, or else another.
  pub last_field : GoString → List (GoString × Value V) → Option (Value V) → Option (Value V)
  last_field name [] old = old
  last_field name ((k, v) ∷ fs) old = last_field name fs (if eq_str k name then some v else old)

  -- The string keys of a list of keys and values with their values. A last key with no value has the
  -- value "MISSING_VALUE"; a key that is no string is left out with its value.
  pub fields_of : List (Value V) → List (GoString × Value V)
  fields_of [] = []
  fields_of (text k ∷ []) = (k, text (codes "MISSING_VALUE")) ∷ []
  fields_of (any k ∷ []) = []
  fields_of (text k ∷ v ∷ kvs) = (k, v) ∷ fields_of kvs
  fields_of (any k ∷ v ∷ kvs) = fields_of kvs

  collect-last_field :
      (name : GoString) (kvs : List (Value V)) (obj : Object V)
      → lookup name (collect (padded kvs) obj) ≡ last_field name (fields_of kvs) (lookup name obj)
  unfolding collect padded last_field fields_of
  collect-last_field name [] obj = refl
  collect-last_field name (text k ∷ []) obj = lookup-insert k name _ obj
  collect-last_field name (any k ∷ []) obj = refl
  collect-last_field name (text k ∷ v ∷ kvs) obj =
      collect-last_field name kvs (insert k v obj)
      ∙ ap (last_field name (fields_of kvs)) (lookup-insert k name v obj)
  collect-last_field name (any k ∷ v ∷ kvs) obj = collect-last_field name kvs obj

  fields_of-flat : (fs : List (GoString × Value V)) → fields_of (flat fs) ≡ fs
  unfolding fields_of
  fields_of-flat [] = refl
  fields_of-flat ((k, v) ∷ fs) = ap (λ t. (k, v) ∷ t) (fields_of-flat fs)

  module _ (level_text : Level → GoString) where
    -- The level's field, which is set first.
    abbrev pub level_field : GoString → Level → Option (Value V)
    level_field name level =
        if eq_str (codes "level") name then some (text (level_text level)) else none

    -- A call of the JSON logger with at least one key writes one object. Under each name it has the
    -- value of the last string key of that name, "MISSING_VALUE" for a last key with no value, and,
    -- where no key has the name, the level under "level" and else nothing.
    pub log_object-last_field :
        (level : Level) (k : Value V) (kvs : List (Value V)) (name : GoString)
        → (obj : Object V) × (log_object level_text level (k ∷ kvs) ≡ some obj)
          × (lookup name obj ≡ last_field name (fields_of (k ∷ kvs)) (level_field name level))
    unfolding log_object lookup insert
    log_object-last_field level k kvs name = (
      collect (padded (k ∷ kvs)) (insert (codes "level") (text (level_text level)) []),
      refl,
      collect-last_field name (k ∷ kvs) _,
    )

    -- The fields that a JSON logger writes for a record: those that it binds, the message, and the
    -- attributes of the derivation and of the record, in the order given, each under the groups open
    -- where it was given.
    abbrev pub line_fields :
        Value V
        → Value V
        → GoString
        → GoString
        → GoString
        → List (Derive V)
        → Record V
        → List (GoString × Value V)
    line_fields ts caller service version instance_id ops r =
        (codes "ts", ts)
        ∷ (codes "caller", caller)
        ∷ (codes "service.id", text instance_id)
        ∷ (codes "service.name", text service)
        ∷ (codes "service.version", text version)
        ∷ (codes "msg", text r.message)
        ∷ scoped [] ops r.attrs

    -- A record of slog, through a handler derived by any attributes and groups and into a logger of
    -- NewJSON or NewJSONTo, becomes one object. Under each name it has the value of the last of these
    -- fields of that name: the level, the time, the caller and the three names of the service that the
    -- logger binds, the message under "msg", then the attributes of the derivation and of the record,
    -- in the order given, each under the groups open where it was given; and nothing where no field
    -- has the name.
    pub handle-log_object :
        (ts caller : Value V) (service version instance_id : GoString) (ops : List (Derive V))
        (r : Record V) (name : GoString)
        → (obj : Object V) × (log_object level_text (handle (derived ops slog_handler) r).0 (
              bound_fields ts caller service version instance_id
              ++ (handle (derived ops slog_handler) r).1)
            ≡ some obj)
          × (lookup name obj
              ≡ last_field name
                  (line_fields ts caller service version instance_id ops r)
                  (level_field name (slog_to_kratos r.level)))
    unfolding bound_fields
    handle-log_object ts caller service version instance_id ops r name =
        let bound = bound_fields ts caller service version instance_id in
        let fields = line_fields ts caller service version instance_id ops r in
        let (obj, e, f) =
          log_object-last_field (slog_to_kratos r.level) (text (codes "ts"))
            (ts
              ∷ text (codes "caller")
              ∷ caller
              ∷ text (codes "service.id")
              ∷ text instance_id
              ∷ text (codes "service.name")
              ∷ text service
              ∷ text (codes "service.version")
              ∷ text version
              ∷ text (codes "msg")
              ∷ text r.message
              ∷ flat (scoped [] ops r.attrs))
            name in
        (
          obj,
          ap (λ p. log_object level_text p.0 (bound ++ p.1)) (handle-scoped ops r) ∙ e,
          f
              ∙ ap (λ t. last_field name t (level_field name (slog_to_kratos r.level)))
                  (fields_of-flat fields),
        )
