-- ===== src/Middleware/Timeout/Goroutine.antt =====
-- pkg/middleware/timeout/timeout.go: a call with a deadline as the steps of two goroutines, the one
-- of the handler and the caller in its select, with the buffered channel between them. The handler's
-- run is one step, at its end.
pub mod Safe
pub mod Answer
mod Tests
use go_infrastructure.Prelude.{ℕ, ◌≡◌, Bool, true, false, Option, none, some}
use go_infrastructure.Kratos.Defs.{Platform}
use go_infrastructure.Middleware.Handler.{Context, Outcome, returned, crashed, Handler}
use go_infrastructure.Middleware.Timeout.{err_deadline_exceeded, in_goroutine}

module _ (P : Platform) where
  open P use {Any, Err, of_kratos}

  -- The goroutine of the handler: `computed` is at the send, `ended` past it.
  pub data Worker : Type 0 where
    running : Worker
    computed ended : Option Any → Option Err → Worker
    dead : Worker

  pub data Caller : Type 0 where
    waiting : Caller
    answered : Outcome P → Caller

  -- The caller with an answer; one that has an answer keeps it.
  abbrev pub told : Outcome P → Caller → Caller
  told out waiting = answered out
  told out (answered old) = answered old

  -- `chan` is the buffer of `ch`, `done` whether `ctx.Done()` is closed. The last two are history,
  -- which no step reads: whether `done` was closed by the deadline or from outside, and the world that
  -- the handler ran in.
  pub record Call (W : Type 0) : Type 0 where
    pub worker : Worker
    pub chan : Option (Option Any × Option Err)
    pub done : Bool
    pub caller : Caller
    pub world : W
    pub expired : Bool
    pub ran : Option W

  -- `Others` is what a step of the rest of the process may do to the world.
  module _ {W : Type 0} (Others : W → W → Type 0) (h : Handler P W) (ctx : Context Any)
      (req : Any) where
    -- `expires` is the deadline or a cancellation from outside; the deferred `cancel` closes `done` as
    -- the caller returns.
    pub data Step (s : Call W) : Call W → Type 0 where
      others : (w : W) → Others s.world w → Step s (record s { world = w })
      expires : s.done ≡ false → Step s (record s { done = true; expired = true })
      finishes :
          (reply : Option Any) (err : Option Err) (w : W)
          → s.worker ≡ running
          → h ctx req s.world ≡ (returned reply err, w)
          → Step s (record s { worker = computed reply err; world = w; ran = some s.world })
      dies :
          (out : Outcome P) (w : W)
          → s.worker ≡ running
          → h ctx req s.world ≡ (out, w)
          → in_goroutine P out ≡ crashed
          → Step s (record s {
            worker = dead;
            caller = told crashed s.caller;
            world = w;
            ran = some s.world;
          })
      sends :
          (reply : Option Any) (err : Option Err)
          → s.worker ≡ computed reply err
          → s.chan ≡ none
          → Step s (record s { worker = ended reply err; chan = some (reply, err) })
      receives :
          (reply : Option Any) (err : Option Err)
          → s.caller ≡ waiting
          → s.chan ≡ some (reply, err)
          → Step s (record s { chan = none; done = true; caller = answered (returned reply err) })
      gives_up :
          s.caller ≡ waiting
          → s.done ≡ true
          → Step s (record s {
            done = true;
            caller = answered (returned none (some (of_kratos (err_deadline_exceeded P))));
          })

    abbrev pub begun : W → Call W
    begun w = record {
      worker = running;
      chan = none;
      done = false;
      caller = waiting;
      world = w;
      expired = false;
      ran = none;
    }

    -- The states that steps lead to.
    pub data Reach (s0 : Call W) : Call W → Type 0 where
      stays : Reach s0 s0
      goes : {s u : Call W} → Reach s0 s → Step s u → Reach s0 u

-- The rest of the process leads from a world to another.
pub data Since {W : Type 0} (Others : W → W → Type 0) (w : W) : W → Type 0 where
  now : Since Others w w
  later : {v u : W} → Since Others w v → Others v u → Since Others w u
