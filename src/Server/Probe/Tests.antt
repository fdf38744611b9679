-- ===== src/Server/Probe/Tests.antt =====
-- The probe theorems at a database that is down and at a drainer.
use go_infrastructure.Prelude.{
  ◌≡◌, ◌↔◌, refl, true, false, none, some, List, [], ◌∷◌, pos, codes, lookup, insert, eq_str,
}
use go_infrastructure.Server.Probe.{
  Pinger, Drainer, before_stop, readiness_pinger, timer_or_done, ready_handler, status_ok,
  status_unavailable,
}
use go_infrastructure.Server.Probe.Readiness.{AllPass, last_report, ready_handler_lem}
use go_infrastructure.Server.Probe.Drained.{before_stop-unavailable}

abbrev passing : Pinger Drainer
passing = record { name = codes "mysql"; ping = λ s. none }

abbrev failing : Pinger Drainer
failing = record { name = codes "redis"; ping = λ s. some (codes "timeout") }

abbrev fresh : Drainer
fresh = record { delay = pos 10; draining = false }

abbrev probes : List (Pinger Drainer)
probes = passing ∷ failing ∷ []

ready_handler_lem_example :
    (((ready_handler (some probes) fresh).status ≡ status_ok) ↔ AllPass fresh probes)
    × ((¬ AllPass fresh probes) ↔ ((ready_handler (some probes) fresh).status ≡ status_unavailable))
    × (((ready_handler (some probes) fresh).ready ≡ true) ↔ AllPass fresh probes)
    × (lookup (codes "redis") (ready_handler (some probes) fresh).checks
        ≡ last_report fresh (codes "redis") probes)
ready_handler_lem_example = ready_handler_lem fresh probes (codes "redis")

redis_report :
    lookup (codes "redis") (ready_handler (some probes) fresh).checks ≡ some (codes "fail: timeout")
unfolding ready_handler lookup insert eq_str
redis_report = refl

stopping : Drainer
unfolding before_stop
stopping = (before_stop fresh).1

before_stop-unavailable_run :
    ((ready_handler (some (passing ∷ readiness_pinger (λ d. d) ∷ [])) stopping).status
      ≡ status_unavailable)
    × ((before_stop fresh).0 ≡ timer_or_done (pos 10))
    × ((before_stop fresh).1.delay ≡ pos 10)
unfolding stopping
before_stop-unavailable_run = before_stop-unavailable (λ d. d) stopping fresh (passing ∷ []) [] refl
