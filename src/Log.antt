-- ===== src/Log.antt =====
-- pkg/log: loggers take a level and a list of keys and values.
pub mod Level
pub mod Redact
pub mod Slog
pub mod Json
pub mod Std
