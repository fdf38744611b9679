-- ===== src/Log/Slog/Levels.antt =====
-- The levels of records.
use go_infrastructure.Prelude.{ℕ, ◌≤◌, ◌↔◌, arith, ℤ, pos, negsuc, ◌≤ℤ◌}
use go_infrastructure.Log.Level.{Level, debug, info, warn, error, fatal}
use go_infrastructure.Log.Slog.{slog_to_kratos}

-- The lowest slog level of a kratos level, for the levels above debug.
abbrev pub threshold : Level → ℤ
threshold debug = negsuc 3
threshold info = pos 0
threshold warn = pos 4
threshold error = pos 8
threshold fatal = pos 12

abbrev pub rank : Level → ℕ
rank debug = 0
rank info = 1
rank warn = 2
rank error = 3
rank fatal = 4

-- A record of slog is logged at the highest of the levels debug to error whose slog level it reaches,
-- and at debug where it reaches none: a level above debug is reached exactly where the rank of the
-- outcome is at least its rank. No record is logged as fatal.
pub slog_to_kratos_lem :
    (l : ℤ) (k : Level)
    → (rank k ≤ 3)
    → (1 ≤ rank k)
    → ((rank k ≤ rank (slog_to_kratos l)) ↔ (threshold k ≤ℤ l)) × (rank (slog_to_kratos l) ≤ 3)
unfolding slog_to_kratos
slog_to_kratos_lem l debug h p = absurd (omega arith)
slog_to_kratos_lem (pos n) info h p = ground arith
slog_to_kratos_lem (pos n) warn h p = ground arith
slog_to_kratos_lem (pos n) error h p = ground arith
slog_to_kratos_lem (negsuc n) info h p = ground arith
slog_to_kratos_lem (negsuc n) warn h p = ground arith
slog_to_kratos_lem (negsuc n) error h p = ground arith
slog_to_kratos_lem l fatal h p = absurd (omega arith)
