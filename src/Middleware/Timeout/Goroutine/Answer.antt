-- ===== src/Middleware/Timeout/Goroutine/Answer.antt =====
-- What the caller gets, and that the handler's goroutine is not stuck.
use go_infrastructure.Prelude.{◌≡◌, refl, false, Option, none, some, leb_ℤ, pos}
use go_infrastructure.Kratos.Defs.{Platform}
use go_infrastructure.Middleware.Handler.{Context, Outcome, returned, Handler, operation_of}
use go_infrastructure.Middleware.Timeout.{Options, skips}
use go_infrastructure.Middleware.Timeout.Goroutine.{
  Caller, waiting, computed, ended, answered, told, Call, Step, sends, receives, begun, Reach,
  stays, goes,
}
use go_infrastructure.Middleware.Timeout.Goroutine.Safe.{Serves, IsSafe, Reach-IsSafe}

module _ (P : Platform) {W : Type 0} (Others : W → W → Type 0) (h : Handler P W)
    (ctx : Context P.Any) (req : P.Any) where
  open P use {Any, Err}

  -- In every interleaving of the two goroutines and the rest of the process, under a positive
  -- timeout and for an operation that is not skipped, an answer that the caller has is the one that the
  -- middleware gives where the handler's answer comes first, in the world that the handler ran in and
  -- that only the rest of the process had changed since the call began; or the deadline, or a
  -- cancellation from outside, had closed the context before the caller returned, and it is the one
  -- that the middleware gives where the deadline comes first.
  pub Reach-Serves :
      (o : Options P) (w : W) (s : Call P W) (out : Outcome P)
      → leb_ℤ o.timeout (pos 0) ≡ false
      → skips P o.skip (operation_of P ctx) ≡ false
      → Reach P Others h ctx req (begun P Others h ctx req w) s
      → s.caller ≡ answered out
      → Serves P Others h ctx req o w out s.ran s.expired
  Reach-Serves o w s out long bound r e =
      let safe = Reach-IsSafe P Others h ctx req o w long bound s r in rw e at (safe.told_so)

  -- The shape of a state does not depend on the options.
  IsSafe-at :
      (w : W) (s : Call P W)
      → Reach P Others h ctx req (begun P Others h ctx req w) s
      → IsSafe P Others h ctx req (record { timeout = pos 1; skip = none }) w s
  IsSafe-at w s r =
      Reach-IsSafe P Others h ctx req (record { timeout = pos 1; skip = none }) w refl refl s r

  -- The run from a send to the caller's answer.
  received :
      (s : Call P W) (k : Caller P) (reply : Option Any) (err : Option Err)
      → s.caller ≡ k
      → s.chan ≡ some (reply, err)
      → (u : Call P W) × Reach P Others h ctx req s u
        × (u.worker ≡ s.worker)
        × (u.caller ≡ told P (returned reply err) k)
  received s waiting reply err e c = (_, goes stays (receives reply err e c), refl, refl)
  received s (answered out) reply err e c = (s, stays, refl, e)

  -- A handler that has returned is never stuck, also where its caller has given up. In every state
  -- that a call reaches with the result computed, the send is open: it ends the goroutine and
  -- leaves the result in the channel. From there the call comes to a state where a caller that waited
  -- has just this result and one that has returned keeps its answer.
  pub Reach-sends :
      (w : W) (s : Call P W) (reply : Option Any) (err : Option Err)
      → Reach P Others h ctx req (begun P Others h ctx req w) s
      → s.worker ≡ computed reply err
      → (u : Call P W) × Step P Others h ctx req s u
        × (u.worker ≡ ended reply err)
        × (u.chan ≡ some (reply, err))
        × (u.caller ≡ s.caller)
        × ((v : Call P W) × Reach P Others h ctx req u v
            × (v.worker ≡ ended reply err)
            × (v.caller ≡ told P (returned reply err) s.caller))
  Reach-sends w s reply err r e =
      let safe = IsSafe-at w s r in
      let u = record s { worker = ended reply err; chan = some (reply, err) } in
      (
        u,
        sends reply err e (rw e at (safe.fed)).0,
        refl,
        refl,
        refl,
        received u s.caller reply err refl refl,
      )
