-- ===== src/Kratos/Defs.antt =====
-- What the services take from kratos, the standard library's open types and x/time/rate: a record
-- of operations with the documented laws that the middlewares rely on.
use go_infrastructure.Prelude.{ℕ, ◌≡◌, Bool, true, Option, some, GoString}

pub record Platform : Type 1 where
  -- a value of type `any`
  pub Any : Type 0
  -- a value of type `error`, and one of type `*kerrors.Error`
  pub Err : Type 0
  pub KratosError : Type 0
  pub of_kratos : KratosError → Err
  pub code : KratosError → ℕ
  pub reason : KratosError → GoString
  -- `kerrors.New(code, reason, message)`
  pub new_error : ℕ → GoString → GoString → KratosError
  pub code-new_error : (c : ℕ) (r m : GoString) → code (new_error c r m) ≡ c
  pub reason-new_error : (c : ℕ) (r m : GoString) → reason (new_error c r m) ≡ r
  -- `err.Error()`
  pub error_text : Err → GoString
  -- `errors.As(err, &k)` for a `*kerrors.Error`
  pub as_kratos : Err → Option KratosError
  pub as_kratos-of_kratos : (k : KratosError) → as_kratos (of_kratos k) ≡ some k
  -- `context.Canceled`, `context.DeadlineExceeded`, and `errors.Is` for each
  pub canceled : Err
  pub deadline_exceeded : Err
  pub is_canceled : Err → Bool
  pub is_deadline_exceeded : Err → Bool
  pub is_canceled-canceled : is_canceled canceled ≡ true
  pub is_deadline_exceeded_self : is_deadline_exceeded deadline_exceeded ≡ true
  -- `errors.As(err, &ne)` for a `net.Error`, with what `ne.Timeout()` answers
  pub as_net_timeout : Err → Option Bool
  -- whether `errors.As(err, &opErr)` finds a `*net.OpError`
  pub as_op_error : Err → Bool

-- `kerrors.Unauthorized`, `kerrors.GatewayTimeout` and `kerrors.InternalServer` are documented as
-- `kerrors.New` at the codes 401, 504 and 500.
module _ (P : Platform) where
  open P use {KratosError, new_error}

  abbrev pub unauthorized : GoString → GoString → KratosError
  unauthorized r m = new_error 401 r m

  abbrev pub gateway_timeout : GoString → GoString → KratosError
  gateway_timeout r m = new_error 504 r m

  abbrev pub internal_server : GoString → GoString → KratosError
  internal_server r m = new_error 500 r m
