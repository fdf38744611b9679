-- ===== src/Server/Probe.antt =====
-- pkg/runtime/server: probe.go and drain.go. A probe reads a state `S`; an error is its text.
pub mod Readiness
pub mod Drained
mod Tests
use go_infrastructure.Prelude.{
  ℕ, Bool, true, false, Option, none, some, List, [], ◌∷◌, ◌++◌, ℤ, pos, GoString, codes, insert,
  leb_ℤ, if◌then◌else◌,
}

pub record Pinger (S : Type 0) : Type 0 where
  pub name : GoString
  pub ping : S → Option GoString

-- The answer of a handler; the body of /readyz as its fields `ready` and `checks`.
pub record Ready : Type 0 where
  pub status : ℕ
  pub content_type : GoString
  pub ready : Bool
  pub checks : List (GoString × GoString)

abbrev pub status_ok : ℕ
status_ok = 200

abbrev pub status_unavailable : ℕ
status_unavailable = 503

-- `allOK` and `result` after one probe.
note :
    GoString
    → Option GoString
    → Bool × List (GoString × GoString)
    → Bool × List (GoString × GoString)
note name none (ok, result) = (ok, insert name (codes "ok") result)
note name (some err) (ok, result) = (false, insert name (codes "fail: " ++ err) result)

-- The loop over the probes.
pub run_probes :
    {S : Type 0}
    → S
    → List (Pinger S)
    → Bool × List (GoString × GoString)
    → Bool × List (GoString × GoString)
unfolding note
run_probes s [] acc = acc
run_probes s (p ∷ ps) acc = run_probes s ps (note p.name (p.ping s) acc)

-- `probes` is `none` for a nil set.
abbrev outcome : {S : Type 0} → S → Option (List (Pinger S)) → Bool × List (GoString × GoString)
outcome s none = (true, [])
outcome s (some ps) = run_probes s ps (true, [])

pub ready_handler : {S : Type 0} → Option (List (Pinger S)) → S → Ready
unfolding run_probes
ready_handler probes s =
    let (ok, result) = outcome s probes in
    record {
      status = if ok then status_ok else status_unavailable;
      content_type = codes "application/json";
      ready = ok;
      checks = result;
    }

pub record Drainer : Type 0 where
  pub delay : ℤ
  pub draining : Bool

unfoldable pub new_drainer : ℤ → Drainer
new_drainer delay = record { delay = delay; draining = false }

abbrev pub err_draining : GoString
err_draining = codes "draining"

-- What the hook waits for, after it has set the flag: nothing, or the first of its timer and the
-- end of its context.
pub data Wait : Type 0 where
  at_once : Wait
  timer_or_done : ℤ → Wait

unfoldable pub before_stop : Drainer → Wait × Drainer
before_stop d =
    (if leb_ℤ d.delay (pos 0) then at_once else timer_or_done d.delay, record d { draining = true })

-- The drainer's pinger over a state that the drainer is a part of.
pub readiness_pinger : {S : Type 0} → (S → Drainer) → Pinger S
readiness_pinger of = record {
  name = codes "drain";
  ping = λ s. if (of s).draining then some err_draining else none;
}
