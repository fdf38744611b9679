-- ===== src/Log/Level.antt =====
-- The logger of kratos as pkg/log uses it.
use go_infrastructure.Prelude.{GoString}

pub data Level : Type 0 where
  debug info warn error fatal : Level

-- A value among the keys and values of a log call: a string, or any other, of type `V`.
pub data Value (V : Type 0) : Type 0 where
  text : GoString → Value V
  any : V → Value V
