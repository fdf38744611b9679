-- ===== src/Config/Root.antt =====
-- Which directory counts as the project's root.
use go_infrastructure.Prelude.{
  ◌≡◌, ◌⊎◌, refl, ap, true, false, Bool-cases, inl, inr, some, List, [], ◌∷◌, ◌++◌, append-nil,
  GoString,
}
use go_infrastructure.Config.{
  FilePath, Files, has_marker, markers, root_from, find_project_root, here,
}

module _ (fs : Files) where
  abbrev pub IsMarked : List GoString → Type 0
  IsMarked dir = has_marker fs markers dir ≡ true

  -- The directories from `below ++ above` up to, and without, `above` have no marker.
  abbrev pub Unmarked : List GoString → List GoString → Type 0
  Unmarked [] above = Unit
  Unmarked (d ∷ below) above =
      (has_marker fs markers ((d ∷ below) ++ above) ≡ false) × Unmarked below above

  -- The nearest directory with a marker, or none at all.
  abbrev pub IsNearest : List GoString → FilePath → Type 0
  IsNearest cwd root =
      ((below : List GoString) × (above : List GoString) × (cwd ≡ below ++ above)
        × (root ≡ record { absolute = true; parts = above })
        × IsMarked above
        × Unmarked below above)
      ⊎ ((root ≡ here) × Unmarked cwd [] × (has_marker fs markers [] ≡ false))

  IsNearest-up :
      (d : GoString) (ds : List GoString) (root : FilePath)
      → has_marker fs markers (d ∷ ds) ≡ false
      → IsNearest ds root
      → IsNearest (d ∷ ds) root
  IsNearest-up d ds root h (inl (below, above, e, r, m, u)) =
      inl (d ∷ below, above, ap (λ t. d ∷ t) e, r, m, (rw (← e) h, u))
  IsNearest-up d ds root h (inr (r, u, n)) = inr (r, (rw append-nil h, u), n)

  root_from-IsNearest : (cwd : List GoString) → IsNearest cwd (root_from fs cwd)
  unfolding root_from
  root_from-IsNearest [] = elim (Bool-cases (has_marker fs markers [])) [
    | inl m ↦ inl ([], [], refl, rw m, m, tt)
    | inr n ↦ inr (rw n, tt, n)
  ]
  root_from-IsNearest (d ∷ ds) = elim (Bool-cases (has_marker fs markers (d ∷ ds))) [
    | inl m ↦ inl ([], d ∷ ds, refl, rw m, m, tt)
    | inr n ↦ rw (n, root_from) (IsNearest-up d ds (root_from fs ds) n (root_from-IsNearest ds))
  ]

  -- From a working directory the search finds the nearest directory, itself or above it, that holds
  -- `.git` or `go.work`, and "." where no directory up to the root of the file system does.
  pub find_project_root-IsNearest :
      (cwd : List GoString) → fs.getwd ≡ some cwd → IsNearest cwd (find_project_root fs)
  unfolding find_project_root
  find_project_root-IsNearest cwd e = rw (e, find_project_root) (root_from-IsNearest cwd)
