-- ===== src/Trace/Installed.antt =====
-- What `Init` leaves in the globals.
use go_infrastructure.Prelude.{
  arith, ◌≡◌, ◌≢◌, refl, ◌⊎◌, inl, inr, true, false, Bool-cases, Option, none, some, [], ◌∷◌,
  is_empty,
}
use go_infrastructure.Middleware.Handler.{Context}
use go_infrastructure.Middleware.Logid
use go_infrastructure.Kratos.Defs.{Platform}
use go_infrastructure.Trace.{
  Otel, Config, Globals, Provider, Shutdown, nop_shutdown, shutdown_of, InitError, trace_context,
  baggage, build_exporter, sampler_of, with_exporter, with_resource, install, init,
  trace_id_from_context,
}

module _ (O : Otel) where
  -- The answer and the globals after a call with these globals before it: an error with a shutdown
  -- that does nothing and the globals as they were; or success, with the globals set to a provider of
  -- the configured resource, exporter and sampler, W3C propagation, and the shutdown of that provider.
  abbrev pub Settled :
      Config O.Ratio → Globals O → (Shutdown O × Option (InitError O)) × Globals O → Type 0
  Settled cfg before ((shutdown, some err), after) =
      (shutdown ≡ nop_shutdown)
      × (after ≡ before)
      × ((is_empty cfg.service_name ≡ true)
          ⊎ ((e : O.Err) × ((O.merged_resource cfg.service_name cfg.service_version ≡ inl e)
                ⊎ (build_exporter O cfg ≡ inl e))))
  Settled cfg before ((shutdown, none), after) =
      (is_empty cfg.service_name ≡ false)
      × ((tp : Provider O) × (shutdown ≡ shutdown_of tp)
          × (after.tracer_provider ≡ some tp)
          × (after.propagator ≡ trace_context ∷ baggage ∷ [])
          × (O.merged_resource cfg.service_name cfg.service_version ≡ inr tp.resource)
          × (build_exporter O cfg ≡ inr tp.exporter)
          × (tp.sampler ≡ sampler_of O cfg.sample_ratio))

  with_exporter-Settled :
      (cfg : Config O.Ratio) (g : Globals O) (res : O.Resource) (r : O.Err ⊎ O.Exporter)
      → is_empty cfg.service_name ≡ false
      → O.merged_resource cfg.service_name cfg.service_version ≡ inr res
      → build_exporter O cfg ≡ r
      → Settled cfg g (with_exporter O cfg res r g)
  unfolding with_exporter install
  with_exporter-Settled cfg g res (inl e) n m b = (refl, refl, inr (e, inr b))
  with_exporter-Settled cfg g res (inr x) n m b = (n, (_, refl, refl, refl, m, b, refl))

  with_resource-Settled :
      (cfg : Config O.Ratio) (g : Globals O) (r : O.Err ⊎ O.Resource)
      → is_empty cfg.service_name ≡ false
      → O.merged_resource cfg.service_name cfg.service_version ≡ r
      → Settled cfg g (with_resource O cfg r g)
  unfolding with_resource
  with_resource-Settled cfg g (inl e) n m = (refl, refl, inr (e, inl m))
  with_resource-Settled cfg g (inr res) n m =
      with_exporter-Settled cfg g res (build_exporter O cfg) n m refl

  -- `Init` is all or nothing: where it fails, the service has no name, the resource cannot be
  -- built, or the exporter cannot, the globals are as before and the shutdown does nothing; where
  -- it succeeds, exactly the provider of the configured parts is installed, and the shutdown that
  -- the caller gets is that provider's own.
  pub init-Settled : (cfg : Config O.Ratio) (g : Globals O) → Settled cfg g (init O cfg g)
  unfolding init
  init-Settled cfg g = elim (Bool-cases (is_empty cfg.service_name)) [
    | inl n ↦ rw n (refl, refl, inl n)
    | inr n ↦ rw n (
        with_resource-Settled cfg g (O.merged_resource cfg.service_name cfg.service_version) n refl)
  ]

-- In a span's context the id of pkg/trace is the one that pkg/middleware/logid reads.
from_context-trace_id :
    (P : Platform) (ctx : Context P.Any)
    → ctx.span ≢ none
    → Logid.from_context P ctx ≡ trace_id_from_context ctx
unfolding Logid.from_context trace_id_from_context
from_context-trace_id P ctx h = ground (arith, h)
