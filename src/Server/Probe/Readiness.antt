-- ===== src/Server/Probe/Readiness.antt =====
-- What /readyz answers.
use go_infrastructure.Prelude.{
  ◌≡◌, ◌↔◌, refl, ap, ◌∙◌, arith, Bool, true, false, inl, inr, Option, none, some, Option-cases,
  List, [], ◌∷◌, ◌++◌, All, GoString, codes, eq_str, lookup, insert, lookup-insert, if◌then◌else◌,
}
use go_infrastructure.Server.Probe.{
  Pinger, note, run_probes, ready_handler, status_ok, status_unavailable,
}

module _ {S : Type 0} (s : S) where
  abbrev pub AllPass : List (Pinger S) → Type 0
  AllPass = All (λ p. p.ping s ≡ none)

  run_pass :
      (p : Pinger S) (ps : List (Pinger S)) (ok : Bool) (r : List (GoString × GoString))
      → p.ping s ≡ none
      → run_probes s (p ∷ ps) (ok, r) ≡ run_probes s ps (ok, insert p.name (codes "ok") r)
  unfolding run_probes note
  run_pass p ps ok r n = ap (λ o. run_probes s ps (note p.name o (ok, r))) n

  run_fail :
      (p : Pinger S) (ps : List (Pinger S)) (ok : Bool) (r : List (GoString × GoString))
      (e : GoString)
      → p.ping s ≡ some e
      → run_probes s (p ∷ ps) (ok, r)
        ≡ run_probes s ps (false, insert p.name (codes "fail: " ++ e) r)
  unfolding run_probes note
  run_fail p ps ok r e h = ap (λ o. run_probes s ps (note p.name o (ok, r))) h

  run_probes-false :
      (ps : List (Pinger S)) (r : List (GoString × GoString))
      → (run_probes s ps (false, r)).0 ≡ false
  unfolding run_probes
  run_probes-false [] r = refl
  run_probes-false (p ∷ ps) r = elim (Option-cases (p.ping s)) [
    | inl n ↦ rw (run_pass p ps false r n) (run_probes-false ps _)
    | inr (e, h) ↦ rw (run_fail p ps false r e h) (run_probes-false ps _)
  ]

  run_probes_iff :
      (ps : List (Pinger S)) (r : List (GoString × GoString))
      → ((run_probes s ps (true, r)).0 ≡ true) ↔ AllPass ps
  unfolding run_probes
  run_probes_iff [] r = (λ h. tt, λ h. refl)
  run_probes_iff (p ∷ ps) r = elim (Option-cases (p.ping s)) [
    | inl n ↦
        let (to, from) = run_probes_iff ps (insert p.name (codes "ok") r) in
        rw (run_pass p ps true r n) (λ h. (n, to h), λ h. from h.1)
    | inr (e, h) ↦
        rw (run_fail p ps true r e h)
          (λ x. cc (run_probes-false ps (insert p.name (codes "fail: " ++ e) r)), λ x. cc (x.0))
  ]

  -- What the probes of a name report, the last of them counting.
  pub last_report : GoString → List (Pinger S) → Option GoString
  last_report k [] = none
  last_report k (p ∷ ps) = elim (last_report k ps) [
    | some report ↦ some report
    | none ↦
        if eq_str p.name k
        then some (elim (p.ping s) [ none ↦ codes "ok" | some e ↦ codes "fail: " ++ e ])
        else none
  ]

  abbrev or_else : Option GoString → Option GoString → Option GoString
  or_else none b = b
  or_else (some a) b = some a

  or_else-none : (a : Option GoString) → or_else a none ≡ a
  or_else-none none = refl
  or_else-none (some a) = refl

  lookup-run_probes :
      (k : GoString) (ps : List (Pinger S)) (ok : Bool) (r : List (GoString × GoString))
      → lookup k (run_probes s ps (ok, r)).1 ≡ or_else (last_report k ps) (lookup k r)
  unfolding run_probes last_report
  lookup-run_probes k [] ok r = refl
  lookup-run_probes k (p ∷ ps) ok r = elim (Option-cases (p.ping s)) [
    | inl n ↦
        rw
          (
            run_pass p ps ok r n,
            lookup-run_probes k ps ok (insert p.name (codes "ok") r),
            lookup-insert p.name k (codes "ok") r,
          )
          (ground arith)
    | inr (e, h) ↦
        rw
          (
            run_fail p ps ok r e h,
            lookup-run_probes k ps false (insert p.name (codes "fail: " ++ e) r),
            lookup-insert p.name k (codes "fail: " ++ e) r,
          )
          (ground arith)
  ]

  -- The status, from what the verdict stands for.
  status_ok_iff :
      {A : Type 0} (b : Bool)
      → (b ≡ true) ↔ A
      → ((if b then status_ok else status_unavailable) ≡ status_ok) ↔ A
  status_ok_iff true f = (λ h. f.0 refl, λ a. refl)
  status_ok_iff false f = (λ h. absurd (omega arith), λ a. cc (f.1 a))

  status_unavailable_iff :
      {A : Type 0} (b : Bool)
      → (b ≡ true) ↔ A
      → (¬ A) ↔ ((if b then status_ok else status_unavailable) ≡ status_unavailable)
  status_unavailable_iff true f = (λ n. absurd (n (f.0 refl)), λ h. absurd (omega arith))
  status_unavailable_iff false f = (λ n. refl, λ h a. cc (f.1 a))

  -- /readyz answers 200 exactly when every probe passes and 503 otherwise, its field `ready` says
  -- the same, and its checks give under each name what the last probe of that name reports.
  pub ready_handler_lem :
      (ps : List (Pinger S)) (k : GoString)
      → (((ready_handler (some ps) s).status ≡ status_ok) ↔ AllPass ps)
        × ((¬ AllPass ps) ↔ ((ready_handler (some ps) s).status ≡ status_unavailable))
        × (((ready_handler (some ps) s).ready ≡ true) ↔ AllPass ps)
        × (lookup k (ready_handler (some ps) s).checks ≡ last_report k ps)
  unfolding ready_handler lookup
  ready_handler_lem ps k =
      let f = run_probes_iff ps [] in
      (
        status_ok_iff (run_probes s ps (true, [])).0 f,
        status_unavailable_iff (run_probes s ps (true, [])).0 f,
        f,
        lookup-run_probes k ps true [] ∙ or_else-none (last_report k ps),
      )
