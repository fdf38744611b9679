-- ===== src/Log/Json/Tests.antt =====
-- JSON lines of a call with a missing value, and of a record of slog.
use go_infrastructure.Prelude.{
  ℕ, ◌≡◌, refl, some, List, [], ◌∷◌, pos, GoString, codes, eq_str, ◌++◌, lookup, insert,
}
use go_infrastructure.Log.Level.{Level, debug, info, warn, error, fatal, text, any}
use go_infrastructure.Log.Slog.{Record, slog_handler, handle, slog_to_kratos}
use go_infrastructure.Log.Slog.Bound.{Derive, group_of, derived}
use go_infrastructure.Log.Json.{Object, log_object, bound_fields}
use go_infrastructure.Log.Json.Fields.{
  last_field, fields_of, level_field, line_fields, log_object-last_field, handle-log_object,
}

abbrev names : Level → GoString
names debug = codes "DEBUG"
names info = codes "INFO"
names warn = codes "WARN"
names error = codes "ERROR"
names fatal = codes "FATAL"

log_object-last_field_run :
    (obj : Object ℕ) × (log_object names info (text (codes "a") ∷ any 1 ∷ text (codes "b") ∷ [])
      ≡ some obj)
    × (lookup (codes "b") obj
        ≡ last_field
            (codes "b")
            (fields_of (text (codes "a") ∷ any 1 ∷ text (codes "b") ∷ []))
            (level_field names (codes "b") info))
log_object-last_field_run =
    log_object-last_field names info (text (codes "a")) (any 1 ∷ text (codes "b") ∷ []) (codes "b")

log_object_run :
    log_object {V = ℕ} names info (text (codes "a") ∷ any 1 ∷ text (codes "b") ∷ [])
    ≡ some (
        (codes "level", text (codes "INFO"))
        ∷ (codes "a", any 1)
        ∷ (codes "b", text (codes "MISSING_VALUE"))
        ∷ [])
unfolding log_object insert eq_str
log_object_run = refl

abbrev derivations : List (Derive ℕ)
derivations = group_of (codes "db") ∷ []

abbrev query : Record ℕ
query = record {
  level = pos 0;
  message = codes "done";
  attrs = record { key = codes "msg"; val = any 3 } ∷ [];
}

-- The attribute "msg" in a group leaves the message alone.
handle-log_object_example :
    (obj : Object ℕ) × (log_object names (handle (derived derivations slog_handler) query).0 (
        bound_fields (any 4) (any 5) (codes "kris") (codes "v1") (codes "host-1")
        ++ (handle (derived derivations slog_handler) query).1)
      ≡ some obj)
    × (lookup (codes "msg") obj
        ≡ last_field
            (codes "msg")
            (line_fields names
              (any 4)
              (any 5)
              (codes "kris")
              (codes "v1")
              (codes "host-1")
              derivations
              query)
            (level_field names (codes "msg") (slog_to_kratos (pos 0))))
handle-log_object_example =
    handle-log_object names (any 4) (any 5) (codes "kris") (codes "v1") (codes "host-1") derivations
      query (codes "msg")
