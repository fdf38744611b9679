-- ===== src/Trace.antt =====
-- pkg/trace/trace.go. The OpenTelemetry SDK is a parameter; the global provider and propagator are
-- the state.
pub mod Installed
mod Tests
use go_infrastructure.Prelude.{
  Bool, ◌⊎◌, inl, inr, Option, none, some, List, [], ◌∷◌, ◌++◌, ℤ, pos, eq_ℤ, GoString, is_empty,
  if◌then◌else◌,
}
use go_infrastructure.Middleware.Handler.{Context}

-- `SampleRatio` is a float64, with the tests `<= 0` and `>= 1` on it.
pub record Config (Ratio : Type 0) : Type 0 where
  pub service_name : GoString
  pub service_version : GoString
  pub endpoint : GoString
  pub insecure : Bool
  pub sample_ratio : Ratio
  pub export_timeout : ℤ

pub data Sampler (Ratio : Type 0) : Type 0 where
  never_sample always_sample : Sampler Ratio
  trace_id_ratio_based : Ratio → Sampler Ratio

pub data ExporterOption : Type 0 where
  with_endpoint : GoString → ExporterOption
  with_insecure : ExporterOption
  with_timeout : ℤ → ExporterOption

pub data Propagator : Type 0 where
  trace_context baggage : Propagator

pub record Otel : Type 1 where
  pub Ratio : Type 0
  pub at_most_zero : Ratio → Bool
  pub at_least_one : Ratio → Bool
  pub Resource : Type 0
  pub Exporter : Type 0
  pub Err : Type 0
  -- the default resource with a service's name and version
  pub merged_resource : GoString → GoString → Err ⊎ Resource
  pub stdout_exporter : Err ⊎ Exporter
  pub otlp_exporter : List ExporterOption → Err ⊎ Exporter

module _ (O : Otel) where
  open O use {
    Ratio, at_most_zero, at_least_one, Resource, Exporter, Err, merged_resource, stdout_exporter,
    otlp_exporter,
  }

  pub record Provider : Type 0 where
    pub exporter : Exporter
    pub resource : Resource
    pub sampler : Sampler Ratio

  -- `otel`'s globals.
  pub record Globals : Type 0 where
    pub tracer_provider : Option Provider
    pub propagator : List Propagator

  -- A function that shuts a provider down, or `nopShutdown`.
  pub data Shutdown : Type 0 where
    nop_shutdown : Shutdown
    shutdown_of : Provider → Shutdown

  pub data InitError : Type 0 where
    service_name_required : InitError
    resource_failed exporter_failed : Err → InitError

  abbrev pub default_export_timeout : ℤ
  default_export_timeout = pos 10_000_000_000

  abbrev pub exporter_opts : Config Ratio → List ExporterOption
  exporter_opts cfg =
      with_endpoint cfg.endpoint ∷ []
      ++ (if cfg.insecure then with_insecure ∷ [] else [])
      ++ (with_timeout
            (if eq_ℤ cfg.export_timeout (pos 0) then default_export_timeout else cfg.export_timeout)
          ∷ [])

  unfoldable pub build_exporter : Config Ratio → Err ⊎ Exporter
  build_exporter cfg =
      if is_empty cfg.endpoint then stdout_exporter else otlp_exporter (exporter_opts cfg)

  unfoldable pub sampler_of : Ratio → Sampler Ratio
  sampler_of r =
      if at_most_zero r
      then never_sample
      else if at_least_one r
      then always_sample
      else trace_id_ratio_based r

  install : Provider → Globals → (Shutdown × Option InitError) × Globals
  install tp g = (
    (shutdown_of tp, none),
    record { tracer_provider = some tp; propagator = trace_context ∷ baggage ∷ [] },
  )

  with_exporter :
      Config Ratio → Resource → Err ⊎ Exporter → Globals → (Shutdown × Option InitError) × Globals
  unfolding sampler_of install
  with_exporter cfg res (inl err) g = ((nop_shutdown, some (exporter_failed err)), g)
  with_exporter cfg res (inr exporter) g =
      install
        (record { exporter = exporter; resource = res; sampler = sampler_of cfg.sample_ratio }) g

  with_resource : Config Ratio → Err ⊎ Resource → Globals → (Shutdown × Option InitError) × Globals
  unfolding with_exporter
  with_resource cfg (inl err) g = ((nop_shutdown, some (resource_failed err)), g)
  with_resource cfg (inr res) g = with_exporter cfg res (build_exporter cfg) g

  unfoldable pub init : Config Ratio → Globals → (Shutdown × Option InitError) × Globals
  unfolding with_resource
  init cfg g =
      if is_empty cfg.service_name
      then ((nop_shutdown, some service_name_required), g)
      else with_resource cfg (merged_resource cfg.service_name cfg.service_version) g

-- A context has the trace id of its span where that span context is valid.
pub trace_id_from_context : {Any : Type 0} → Context Any → GoString
trace_id_from_context ctx = elim (ctx.span) [ none ↦ [] | some id ↦ id ]
