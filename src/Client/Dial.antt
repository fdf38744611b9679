-- ===== src/Client/Dial.antt =====
-- What the client packages take from a transport of kratos and from the logger, over a state `W`.
use go_infrastructure.Prelude.{Option, List, ℤ, GoString}

-- The answer of a transport that is asked for a connection, an error by its text.
pub data Dialed (Conn : Type 0) : Type 0 where
  connected : Conn → Dialed Conn
  refused : GoString → Dialed Conn

-- What a constructor returns: a connection, whose cleanup closes it, or an error by its text.
pub data Opened (Conn : Type 0) : Type 0 where
  opened : Conn → Opened Conn
  not_opened : GoString → Opened Conn

-- `dial` gets the timeout of its context; `close` answers with an error's text.
pub record Dialer (Opt Conn W : Type 0) : Type 0 where
  pub dial : ℤ → List Opt → W → Dialed Conn × W
  pub close : Conn → W → Option GoString × W
  pub info : GoString → W → W
  pub error : GoString → W → W
