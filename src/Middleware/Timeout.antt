-- ===== src/Middleware/Timeout.antt =====
-- pkg/middleware/timeout/timeout.go. Which of the handler's answer and the deadline comes first is
-- up to the world.
pub mod Deadline
pub mod Goroutine
mod Tests
use go_infrastructure.Prelude.{
  ℕ, Bool, true, false, Option, none, some, List, [], ◌∷◌, ℤ, pos, GoString, codes, leb_ℤ,
  if◌then◌else◌,
}
use go_infrastructure.Kratos.Defs.{Platform, gateway_timeout}
use go_infrastructure.Middleware.Handler.{
  Context, Outcome, returned, panicked, crashed, Handler, Middleware, operation_of,
}

module _ (P : Platform) where
  open P use {Any, KratosError, of_kratos}

  pub record Options : Type 0 where
    pub timeout : ℤ
    pub skip : Option (GoString → Bool)

  unfoldable pub with_timeout : ℤ → Options → Options
  with_timeout d o = record o { timeout = d }

  pub with_skip : (GoString → Bool) → Options → Options
  with_skip f o = record o { skip = some f }

  abbrev pub defaults : Options
  defaults = record { timeout = pos 0; skip = none }

  abbrev pub err_deadline_exceeded : KratosError
  err_deadline_exceeded =
      gateway_timeout P (codes "DEADLINE_EXCEEDED") (codes "handler exceeded configured timeout")

  abbrev pub skips : Option (GoString → Bool) → GoString → Bool
  skips none op = false
  skips (some f) op = f op

  -- The goroutine has no `recover`: a panic in it ends the process.
  pub in_goroutine : Outcome P → Outcome P
  in_goroutine (returned reply err) = returned reply err
  in_goroutine (panicked v) = crashed
  in_goroutine crashed = crashed

  -- `answers_first` is whether the handler's answer is ready before `ctx.Done()`; `abandon` is the
  -- world that the middleware returns in when the deadline comes first.
  pub record Race (W : Type 0) : Type 0 where
    pub answers_first : ℤ → W → Bool
    pub abandon : W → W

  pub server : {W : Type 0} → Race W → Options → Middleware P W
  unfolding in_goroutine
  server race o h ctx req w =
      if leb_ℤ o.timeout (pos 0)
      then h ctx req w
      else if skips o.skip (operation_of P ctx)
      then h ctx req w
      else if race.answers_first o.timeout w
      then (let (out, w') = h ctx req w in (in_goroutine out, w'))
      else (returned none (some (of_kratos err_deadline_exceeded)), race.abandon w)

  unfoldable pub apply : List (Options → Options) → Options → Options
  apply [] o = o
  apply (opt ∷ opts) o = apply opts (opt o)

  -- `Server` with its options.
  unfoldable pub server_with : {W : Type 0} → Race W → List (Options → Options) → Middleware P W
  unfolding apply
  server_with race opts = server race (apply opts defaults)
