-- ===== src/Middleware/Timeout/Deadline.antt =====
-- The timeout middleware on each of its paths.
use go_infrastructure.Prelude.{◌≡◌, true, false, none, some, pos, leb_ℤ, codes}
use go_infrastructure.Kratos.Defs.{Platform}
use go_infrastructure.Server.Chain.{Kratos}
use go_infrastructure.Middleware.Handler.{
  Context, returned, panicked, crashed, Handler, operation_of,
}
use go_infrastructure.Middleware.Timeout.{
  Options, skips, err_deadline_exceeded, Race, server, in_goroutine,
}

module _ (P : Platform) {W : Type 0} (race : Race P W) where
  open P use {Any, Err, KratosError, of_kratos, code, code-new_error, reason, reason-new_error}

  pub server_late :
      (o : Options P) (h : Handler P W) (ctx : Context Any) (req : Any) (w : W)
      → leb_ℤ o.timeout (pos 0) ≡ false
      → skips P o.skip (operation_of P ctx) ≡ false
      → race.answers_first o.timeout w ≡ false
      → server P race o h ctx req w
        ≡ (returned none (some (of_kratos (err_deadline_exceeded P))), race.abandon w)
  unfolding server
  server_late o h ctx req w f s a = rw (f, s, a)

  -- For an operation that is not skipped, under a positive timeout, where the deadline is first the
  -- answer is a kratos error of code 504 and reason DEADLINE_EXCEEDED, whatever the handler does,
  -- a panic included.
  pub server-overdue :
      (o : Options P) (h : Handler P W) (ctx : Context Any) (req : Any) (w : W)
      → leb_ℤ o.timeout (pos 0) ≡ false
      → skips P o.skip (operation_of P ctx) ≡ false
      → race.answers_first o.timeout w ≡ false
      → (e : KratosError) × (server P race o h ctx req w
          ≡ (returned none (some (of_kratos e)), race.abandon w))
        × (code e ≡ 504)
        × (reason e ≡ codes "DEADLINE_EXCEEDED")
  server-overdue o h ctx req w f s a = (
    err_deadline_exceeded P,
    server_late o h ctx req w f s a,
    code-new_error _ _ _,
    reason-new_error _ _ _,
  )

  -- For an operation that is not skipped, under a positive timeout, a handler that panics before the
  -- deadline ends the process, also where the recovery middleware is around this one.
  pub server-fatal :
      (K : Kratos P W) (f : Context Any → Any → Any → W → Err × W) (o : Options P) (h : Handler P W)
      (ctx : Context Any) (req v : Any) (w w2 : W)
      → leb_ℤ o.timeout (pos 0) ≡ false
      → skips P o.skip (operation_of P ctx) ≡ false
      → race.answers_first o.timeout w ≡ true
      → h ctx req w ≡ (panicked v, w2)
      → K.recover f (server P race o h) ctx req w ≡ (crashed, w2)
  unfolding server in_goroutine
  server-fatal K f o h ctx req v w w2 t s a e =
      K.recover-crashed f (server P race o h) ctx req w w2 (rw (t, s, a, e))
