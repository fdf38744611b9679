-- ===== src/Server/Sample.antt =====
-- A concrete kratos over the sample platform, for the tests.
use go_infrastructure.Prelude.{ℕ, refl, ap, none, some, List, [], ◌∷◌, codes}
use go_infrastructure.Kratos.Sample.{sample, SampleError}
use go_infrastructure.Middleware.Handler.{Context, Outcome, returned, panicked, crashed, Middleware}
use go_infrastructure.Server.Chain.{Kratos}

module _ {W : Type 0} where
  abbrev chained : List (Middleware sample W) → Middleware sample W
  chained [] h = h
  chained (m ∷ ms) h = m (chained ms h)

  abbrev settled : (ℕ → W → SampleError × W) → Outcome sample × W → Outcome sample × W
  settled f (returned reply err, w) = (returned reply err, w)
  settled f (panicked v, w) = (returned none (some (f v w).0), (f v w).1)
  settled f (crashed, w) = (crashed, w)

  abbrev recovered : (ℕ → W → W) → (Context ℕ → ℕ → ℕ → W → SampleError × W) → Middleware sample W
  recovered noted f h ctx req w = settled (λ v w'. f ctx req v (noted v w')) (h ctx req w)

  -- A kratos that logs a panic so.
  abbrev pub logging_kratos : (ℕ → W → W) → Kratos sample W
  logging_kratos noted = record {
    chain = chained;
    chain-nil = λ h. refl;
    chain-cons = λ m ms h. refl;
    recover = recovered noted;
    log_panic = λ ctx req v w. noted v w;
    recover-returned =
        λ f h ctx req w w' reply err e. ap (settled (λ v u. f ctx req v (noted v u))) e;
    recover-panicked = λ f h ctx req w w' v e. ap (settled (λ v u. f ctx req v (noted v u))) e;
    recover-crashed = λ f h ctx req w w' e. ap (settled (λ v u. f ctx req v (noted v u))) e;
    span_for = λ ctx. some (codes "span");
    tracing = λ h ctx req w. h (record ctx { span = some (codes "span") }) req w;
    tracing_lem = λ h ctx req w. refl;
  }

  abbrev pub sample_kratos : Kratos sample W
  sample_kratos = logging_kratos (λ v w. w)
