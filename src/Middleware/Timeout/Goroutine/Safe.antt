-- ===== src/Middleware/Timeout/Goroutine/Safe.antt =====
-- What is in the channel and in the answer, by where the handler's goroutine stands.
use go_infrastructure.Prelude.{
  ◌≡◌, refl, ap, ◌∙◌, sym, ◌⊎◌, inl, inr, Bool, true, false, Option, none, some, leb_ℤ, pos,
}
use go_infrastructure.Kratos.Defs.{Platform}
use go_infrastructure.Middleware.Handler.{
  Context, Outcome, returned, crashed, Handler, operation_of,
}
use go_infrastructure.Middleware.Timeout.{
  Options, skips, err_deadline_exceeded, Race, server, in_goroutine,
}
use go_infrastructure.Middleware.Timeout.Goroutine.{
  Worker, running, computed, ended, dead, Caller, waiting, answered, told, Call, Step, others,
  expires, finishes, dies, sends, receives, gives_up, begun, Reach, stays, goes, Since, now, later,
}

module _ (P : Platform) {W : Type 0} (Others : W → W → Type 0) (h : Handler P W)
    (ctx : Context P.Any) (req : P.Any) (o : Options P) (w0 : W) where
  open P use {Any, Err, of_kratos}

  -- The two ways that the middleware answers with a deadline.
  abbrev pub first : Race P W
  first = record { answers_first = λ d w. true; abandon = λ w. w }

  abbrev pub late : Race P W
  late = record { answers_first = λ d w. false; abandon = λ w. w }

  -- The handler ran in a world that only the rest of the process had changed since the call began, and
  -- the middleware answers so for it there.
  abbrev Ran : Outcome P → Option W → Type 0
  Ran out ran =
      (v : W) × Since Others w0 v × (ran ≡ some v) × ((server P first o h ctx req v).0 ≡ out)

  -- Either the answer is that of the middleware where the handler is first, or `done` was closed by
  -- the deadline or from outside and it is that of the middleware where the handler is late.
  abbrev pub Serves : Outcome P → Option W → Bool → Type 0
  Serves out ran expired =
      Ran out ran ⊎ ((expired ≡ true) × ((v : W) → (server P late o h ctx req v).0 ≡ out))

  abbrev Holds : Option (Option Any × Option Err) → Option W → Type 0
  Holds none ran = Unit
  Holds (some (reply, err)) ran = Ran (returned reply err) ran

  abbrev Told : Caller P → Option W → Bool → Type 0
  Told waiting ran expired = Unit
  Told (answered out) ran expired = Serves out ran expired

  -- The channel is empty up to the send; after it the caller has the answer to come or has returned.
  abbrev Fed : Worker P → Option (Option Any × Option Err) → Caller P → W → Option W → Type 0
  Fed running c k w ran = (c ≡ none) × Since Others w0 w × (ran ≡ none)
  Fed (computed reply err) c k w ran = (c ≡ none) × Ran (returned reply err) ran
  Fed (ended reply err) c waiting w ran = c ≡ some (reply, err)
  Fed (ended reply err) c (answered out) w ran = Unit
  Fed dead c k w ran = Unit

  -- While the caller waits, `done` is closed only by the deadline or from outside.
  abbrev Open : Caller P → Bool → Bool → Type 0
  Open waiting done expired = done ≡ expired
  Open (answered out) done expired = Unit

  pub record IsSafe (s : Call P W) : Type 0 where
    pub fed : Fed s.worker s.chan s.caller s.world s.ran
    pub held : Holds s.chan s.ran
    pub told_so : Told s.caller s.ran s.expired
    pub kept_open : Open s.caller s.done s.expired

  Fed-sent :
      (reply : Option Any) (err : Option Err) (k : Caller P) (w : W) (ran : Option W)
      → Fed (ended reply err) (some (reply, err)) k w ran
  Fed-sent reply err waiting w ran = refl
  Fed-sent reply err (answered out) w ran = tt

  Fed-others :
      (wk : Worker P) (c : Option (Option Any × Option Err)) (k : Caller P) (w v : W)
      (ran : Option W)
      → Others w v
      → Fed wk c k w ran
      → Fed wk c k v ran
  Fed-others running c k w v ran r (e, since, n) = (e, later since r, n)
  Fed-others (computed reply err) c k w v ran r f = f
  Fed-others (ended reply err) c waiting w v ran r f = f
  Fed-others (ended reply err) c (answered out) w v ran r f = tt
  Fed-others dead c k w v ran r f = tt

  Fed-received :
      (wk : Worker P) (c : Option (Option Any × Option Err)) (out : Outcome P) (w : W)
      (ran : Option W)
      → Fed wk c waiting w ran
      → Fed wk none (answered out) w ran
  Fed-received running c out w ran (e, since, n) = (refl, since, n)
  Fed-received (computed reply err) c out w ran (e, f) = (refl, f)
  Fed-received (ended reply err) c out w ran f = tt
  Fed-received dead c out w ran f = tt

  Fed-late :
      (wk : Worker P) (c : Option (Option Any × Option Err)) (out : Outcome P) (w : W)
      (ran : Option W)
      → Fed wk c waiting w ran
      → Fed wk c (answered out) w ran
  Fed-late running c out w ran f = f
  Fed-late (computed reply err) c out w ran f = f
  Fed-late (ended reply err) c out w ran f = tt
  Fed-late dead c out w ran f = tt

  -- An answer before the handler has run is one for the deadline.
  Told-ran :
      (k : Caller P) (ran : Option W) (v : W) (expired : Bool)
      → ran ≡ none
      → Told k ran expired
      → Told k (some v) expired
  Told-ran waiting ran v expired n t = tt
  Told-ran (answered out) ran v expired n (inl (u, since, e, s)) = absurd (cc (sym n ∙ e))
  Told-ran (answered out) ran v expired n (inr t) = inr t

  Told-expired :
      (k : Caller P) (ran : Option W) (expired : Bool) → Told k ran expired → Told k ran true
  Told-expired waiting ran expired t = tt
  Told-expired (answered out) ran expired (inl t) = inl t
  Told-expired (answered out) ran expired (inr (e, t)) = inr (refl, t)

  Told-crashed :
      (k : Caller P) (ran : Option W) (expired : Bool)
      → Ran crashed ran
      → Told k ran expired
      → Told (told P crashed k) ran expired
  Told-crashed waiting ran expired c t = inl c
  Told-crashed (answered out) ran expired c t = t

  Open-expired : (k : Caller P) → Open k true true
  Open-expired waiting = refl
  Open-expired (answered out) = tt

  Open-crashed : (k : Caller P) (done expired : Bool) → Open (told P crashed k) done expired
  Open-crashed waiting done expired = tt
  Open-crashed (answered out) done expired = tt

  module _ (long : leb_ℤ o.timeout (pos 0) ≡ false)
      (bound : skips P o.skip (operation_of P ctx) ≡ false) where
    Ran-in_goroutine :
        (out : Outcome P) (v w' : W)
        → Since Others w0 v
        → h ctx req v ≡ (out, w')
        → Ran (in_goroutine P out) (some v)
    unfolding server
    Ran-in_goroutine out v w' since e =
        (v, since, refl, rw (long, bound) (ap (λ (r : Outcome P × W). in_goroutine P r.0) e))

    late-server :
        (v : W)
        → (server P late o h ctx req v).0
          ≡ returned none (some (of_kratos (err_deadline_exceeded P)))
    unfolding server
    late-server v = rw (long, bound) refl

    Step-IsSafe : (s u : Call P W) → IsSafe s → Step P Others h ctx req s u → IsSafe u
    unfolding in_goroutine
    Step-IsSafe s u safe (others w r) = record {
      fed = Fed-others s.worker s.chan s.caller s.world w s.ran r safe.fed;
      held = safe.held;
      told_so = safe.told_so;
      kept_open = safe.kept_open;
    }
    Step-IsSafe s u safe (expires n) = record {
      fed = safe.fed;
      held = safe.held;
      told_so = Told-expired s.caller s.ran s.expired safe.told_so;
      kept_open = Open-expired s.caller;
    }
    Step-IsSafe s u safe (finishes reply err w e r) =
        let (n, since, unrun) = rw e at (safe.fed) in
        record {
          fed = (n, Ran-in_goroutine (returned reply err) s.world w since r);
          held = rw n tt;
          told_so = Told-ran s.caller s.ran s.world s.expired unrun safe.told_so;
          kept_open = safe.kept_open;
        }
    Step-IsSafe s u safe (dies out w e r c) =
        let (n, since, unrun) = rw e at (safe.fed) in
        record {
          fed = tt;
          held = rw n tt;
          told_so =
              Told-crashed s.caller (some s.world) s.expired
                (rw c at (Ran-in_goroutine out s.world w since r))
                (Told-ran s.caller s.ran s.world s.expired unrun safe.told_so);
          kept_open = Open-crashed s.caller s.done s.expired;
        }
    Step-IsSafe s u safe (sends reply err e n) = record {
      fed = Fed-sent reply err s.caller s.world s.ran;
      held = (rw e at (safe.fed)).1;
      told_so = safe.told_so;
      kept_open = safe.kept_open;
    }
    Step-IsSafe s u safe (receives reply err e c) = record {
      fed = Fed-received s.worker s.chan _ s.world s.ran (rw e at (safe.fed));
      held = tt;
      told_so = inl (rw c at (safe.held));
      kept_open = tt;
    }
    Step-IsSafe s u safe (gives_up e d) = record {
      fed = Fed-late s.worker s.chan _ s.world s.ran (rw e at (safe.fed));
      held = safe.held;
      told_so = inr (sym (rw e at (safe.kept_open)) ∙ d, late-server);
      kept_open = tt;
    }

    pub Reach-IsSafe :
        (s : Call P W) → Reach P Others h ctx req (begun P Others h ctx req w0) s → IsSafe s
    Reach-IsSafe s stays = record {
      fed = (refl, now, refl);
      held = tt;
      told_so = tt;
      kept_open = refl;
    }
    Reach-IsSafe u (goes {s = s} r st) = Step-IsSafe s u (Reach-IsSafe s r) st
