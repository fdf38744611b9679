-- ===== src/Server/Probe/Drained.antt =====
-- Readiness once the shutdown has begun.
use go_infrastructure.Prelude.{
  ◌≡◌, refl, arith, true, some, List, [], ◌∷◌, ◌++◌, ℤ, pos, leb_ℤ, if◌then◌else◌,
}
use go_infrastructure.Server.Probe.{
  Pinger, Drainer, new_drainer, before_stop, readiness_pinger, at_once, timer_or_done,
  ready_handler, status_ok, status_unavailable,
}
use go_infrastructure.Server.Probe.Readiness.{AllPass, ready_handler_lem}

-- The hook leaves a drainer that drains.
pub before_stop-draining : (d : Drainer) → (before_stop d).1.draining ≡ true
unfolding before_stop
before_stop-draining d = refl

module _ {S : Type 0} (of : S → Drainer) where
  not-AllPass :
      (s : S) (xs ys : List (Pinger S))
      → (of s).draining ≡ true
      → ¬ AllPass s (xs ++ readiness_pinger of ∷ ys)
  unfolding readiness_pinger
  not-AllPass s [] ys d h = ground (arith, h.0)
  not-AllPass s (x ∷ xs) ys d h = not-AllPass s xs ys d h.1

  -- A drainer that drains makes /readyz unavailable, whatever the probes beside its pinger say.
  pub draining-unavailable :
      (s : S) (xs ys : List (Pinger S))
      → (of s).draining ≡ true
      → (ready_handler (some (xs ++ readiness_pinger of ∷ ys)) s).status ≡ status_unavailable
  draining-unavailable s xs ys d =
      (ready_handler_lem s (xs ++ readiness_pinger of ∷ ys) []).1.0 (not-AllPass s xs ys d)

  -- From the call of the stop hook on, whatever the other probes say and wherever the drainer's
  -- pinger stands among them, /readyz answers 503. The hook waits for the timer or the context
  -- exactly where the delay is positive, and leaves the delay.
  pub before_stop-unavailable :
      (s : S) (d : Drainer) (xs ys : List (Pinger S))
      → of s ≡ (before_stop d).1
      → ((ready_handler (some (xs ++ readiness_pinger of ∷ ys)) s).status ≡ status_unavailable)
        × ((before_stop d).0 ≡ (if leb_ℤ d.delay (pos 0) then at_once else timer_or_done d.delay))
        × ((before_stop d).1.delay ≡ d.delay)
  unfolding before_stop
  before_stop-unavailable s d xs ys e = (draining-unavailable s xs ys (rw e), refl, refl)

  -- Before it a new drainer's pinger fails no readiness check: with the pinger among the probes
  -- the answer is the one that the other probes give.
  pub new_drainer-ready :
      (s : S) (delay : ℤ) (ps : List (Pinger S))
      → of s ≡ new_drainer delay
      → AllPass s ps
      → (ready_handler (some (readiness_pinger of ∷ ps)) s).status ≡ status_ok
  unfolding readiness_pinger new_drainer
  new_drainer-ready s delay ps e h =
      (ready_handler_lem s (readiness_pinger of ∷ ps) []).0.1 (ground arith, h)
