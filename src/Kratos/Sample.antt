-- ===== src/Kratos/Sample.antt =====
-- A concrete platform, for the tests: errors are a data type of the forms that the code tells apart.
use go_infrastructure.Prelude.{ℕ, refl, Bool, true, false, Option, some, none, GoString, codes}
use go_infrastructure.Kratos.Defs.{Platform}

pub record SampleKratos : Type 0 where
  pub code : ℕ
  pub reason : GoString
  pub message : GoString

pub data SampleError : Type 0 where
  kratos : SampleKratos → SampleError
  canceled deadline_exceeded op_error plain : SampleError
  net_error : Bool → SampleError

abbrev sample_text : SampleError → GoString
sample_text (kratos k) = k.message
sample_text _ = codes "error"

abbrev sample_as_kratos : SampleError → Option SampleKratos
sample_as_kratos (kratos k) = some k
sample_as_kratos _ = none

abbrev sample_is_canceled : SampleError → Bool
sample_is_canceled canceled = true
sample_is_canceled _ = false

abbrev sample_is_deadline : SampleError → Bool
sample_is_deadline deadline_exceeded = true
sample_is_deadline _ = false

abbrev sample_net : SampleError → Option Bool
sample_net deadline_exceeded = some true
sample_net (net_error b) = some b
sample_net op_error = some false
sample_net _ = none

abbrev sample_op : SampleError → Bool
sample_op op_error = true
sample_op _ = false

abbrev pub sample : Platform
sample = record {
  Any = ℕ;
  Err = SampleError;
  KratosError = SampleKratos;
  of_kratos = kratos;
  code = λ k. k.code;
  reason = λ k. k.reason;
  new_error = λ c r m. record { code = c; reason = r; message = m };
  code-new_error = λ c r m. refl;
  reason-new_error = λ c r m. refl;
  error_text = sample_text;
  as_kratos = sample_as_kratos;
  as_kratos-of_kratos = λ k. refl;
  canceled = canceled;
  deadline_exceeded = deadline_exceeded;
  is_canceled = sample_is_canceled;
  is_deadline_exceeded = sample_is_deadline;
  is_canceled-canceled = refl;
  is_deadline_exceeded_self = refl;
  as_net_timeout = sample_net;
  as_op_error = sample_op;
}
