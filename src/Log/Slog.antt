-- ===== src/Log/Slog.antt =====
-- pkg/log/slog.go: the handler of log/slog over a kratos logger. `V` is the type of values that are
-- no strings; `Attr.Value.Any()` is a `Value V`.
pub mod Bound
pub mod Levels
mod Tests
use go_infrastructure.Prelude.{
  Bool, true, List, [], ◌∷◌, ◌++◌, ℤ, pos, negsuc, GoString, codes, is_empty, join, ltb_ℤ,
  if◌then◌else◌,
}
use go_infrastructure.Log.Level.{Level, debug, info, warn, error, Value, text}

pub record Attr (V : Type 0) : Type 0 where
  pub key : GoString
  pub val : Value V

-- A record of slog; its level is an integer.
pub record Record (V : Type 0) : Type 0 where
  pub level : ℤ
  pub message : GoString
  pub attrs : List (Attr V)

pub record SlogHandler (V : Type 0) : Type 0 where
  pub attrs : List (Value V)
  pub groups : List GoString

abbrev pub level_info : ℤ
level_info = pos 0

abbrev pub level_warn : ℤ
level_warn = pos 4

abbrev pub level_error : ℤ
level_error = pos 8

pub slog_to_kratos : ℤ → Level
slog_to_kratos l =
    if ltb_ℤ l level_info
    then debug
    else if ltb_ℤ l level_warn
    then info
    else if ltb_ℤ l level_error
    then warn
    else error

module _ {V : Type 0} where
  unfoldable pub slog_handler : SlogHandler V
  slog_handler = record { attrs = []; groups = [] }

  -- Every level is forwarded.
  pub enabled : SlogHandler V → ℤ → Bool
  enabled h l = true

  unfoldable pub prefix : SlogHandler V → GoString → GoString
  prefix h key = if is_empty h.groups then key else join h.groups (codes ".") ++ (codes "." ++ key)

  -- The loops over attributes of `Handle` and `WithAttrs`.
  append_attrs : SlogHandler V → List (Attr V) → List (Value V) → List (Value V)
  unfolding prefix
  append_attrs h [] kv = kv
  append_attrs h (a ∷ as') kv = append_attrs h as' (kv ++ (text (prefix h a.key) ∷ a.val ∷ []))

  unfoldable pub with_attrs : SlogHandler V → List (Attr V) → SlogHandler V
  unfolding append_attrs
  with_attrs h as' = record h { attrs = append_attrs h as' h.attrs }

  unfoldable pub with_group : SlogHandler V → GoString → SlogHandler V
  with_group h name = if is_empty name then h else record h { groups = h.groups ++ name ∷ [] }

  -- What `Handle` logs: the level and the keys and values of one call.
  unfoldable pub handle : SlogHandler V → Record V → Level × List (Value V)
  unfolding append_attrs slog_to_kratos
  handle h r = (
    slog_to_kratos r.level,
    append_attrs h r.attrs ((text (codes "msg") ∷ text r.message ∷ []) ++ h.attrs),
  )
