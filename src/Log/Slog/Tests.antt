-- ===== src/Log/Slog/Tests.antt =====
-- The handler of slog at two groups, with attributes bound between them.
use go_infrastructure.Prelude.{ℕ, ◌≤◌, ◌≡◌, ◌↔◌, refl, arith, List, [], ◌∷◌, pos, ◌≤ℤ◌, codes, join}
use go_infrastructure.Log.Level.{warn, text, any}
use go_infrastructure.Log.Slog.{
  Record, slog_handler, handle, slog_to_kratos, with_attrs, with_group,
}
use go_infrastructure.Log.Slog.Bound.{
  Derive, attrs_of, group_of, derived, scoped, flat, handle-scoped,
}
use go_infrastructure.Log.Slog.Levels.{threshold, rank, slog_to_kratos_lem}

abbrev derivations : List (Derive ℕ)
derivations =
    group_of (codes "db")
    ∷ attrs_of (record { key = codes "host"; val = text (codes "h1") } ∷ [])
    ∷ group_of (codes "")
    ∷ group_of (codes "query")
    ∷ []

abbrev slow_query : Record ℕ
slow_query = record {
  level = pos 5;
  message = codes "slow";
  attrs = record { key = codes "ms"; val = any 900 } ∷ [];
}

handle-scoped_run : handle (derived derivations slog_handler) slow_query ≡ (
  slog_to_kratos (pos 5),
  flat ((codes "msg", text (codes "slow")) ∷ scoped [] derivations slow_query.attrs),
)
handle-scoped_run = handle-scoped derivations slow_query

handle_run : handle (derived derivations slog_handler) slow_query ≡ (
  warn,
  text (codes "msg")
      ∷ text (codes "slow")
      ∷ text (codes "db.host")
      ∷ text (codes "h1")
      ∷ text (codes "db.query.ms")
      ∷ any 900
      ∷ [],
)
unfolding handle derived with_attrs with_group slog_handler slog_to_kratos join
handle_run = refl

slog_to_kratos_lem_run :
    ((rank warn ≤ rank (slog_to_kratos (pos 5))) ↔ (threshold warn ≤ℤ pos 5))
    × (rank (slog_to_kratos (pos 5)) ≤ 3)
slog_to_kratos_lem_run = slog_to_kratos_lem (pos 5) warn (omega arith) (omega arith)
