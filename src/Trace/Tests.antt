-- ===== src/Trace/Tests.antt =====
-- `Init` with an exporter that cannot be built, and with none configured.
use go_infrastructure.Prelude.{
  ℕ, ◌≡◌, refl, Bool, true, false, inl, inr, none, some, [], pos, codes,
}
use go_infrastructure.Trace.{Otel, Config, Globals, init, always_sample, build_exporter, sampler_of}
use go_infrastructure.Trace.Installed.{Settled, init-Settled}

abbrev sample_otel : Otel
sample_otel = record {
  Ratio = Bool;
  at_most_zero = λ r. false;
  at_least_one = λ r. r;
  Resource = ℕ;
  Exporter = ℕ;
  Err = ℕ;
  merged_resource = λ name version. inr 1;
  stdout_exporter = inr 2;
  otlp_exporter = λ opts. inl 3;
}

abbrev local : Config Bool
local = record {
  service_name = codes "kris-alpha";
  service_version = [];
  endpoint = [];
  insecure = false;
  sample_ratio = true;
  export_timeout = pos 0;
}

abbrev untouched : Globals sample_otel
untouched = record { tracer_provider = none; propagator = [] }

init-Settled_example : Settled sample_otel local untouched (init sample_otel local untouched)
init-Settled_example = init-Settled sample_otel local untouched

-- A local run samples all and writes to the standard error.
local_provider :
    (init sample_otel local untouched).1.tracer_provider
    ≡ some (record { exporter = 2; resource = 1; sampler = always_sample })
unfolding init build_exporter sampler_of
local_provider = refl
