-- ===== src/Prelude/Trim.antt =====
-- What trimming leaves: a text with nothing to drop at either end.
use Prim.Native.Nat.{ℕ}
use mathlib.Core.Path.{◌≡◌, refl}
use mathlib.Core.Logic.{◌≢◌}
use mathlib.Core.Bool.{Bool, true, false}
use mathlib.Core.List.{[], ◌∷◌, ◌++◌}
use native.Mathlib.Omega.{arith}
use go_infrastructure.Prelude.Lists.{All}
use go_infrastructure.Prelude.Text.{GoString, trim_left, trim_right, trim_both}

module _ (p : ℕ → Bool) where
  -- The first byte, if any, fails the test; the last byte, if any, fails it.
  abbrev pub Starts : GoString → Type 0
  Starts [] = Unit
  Starts (b ∷ s) = p b ≡ false

  abbrev pub Ends : GoString → Type 0
  Ends [] = Unit
  Ends (b ∷ []) = p b ≡ false
  Ends (b ∷ c ∷ s) = Ends (c ∷ s)

  abbrev pub Dropped : GoString → Type 0
  Dropped = All (λ b. p b ≡ true)

  trim_left-append : (pre s : GoString) → Dropped pre → trim_left p (pre ++ s) ≡ trim_left p s
  unfolding trim_left
  trim_left-append [] s h = refl
  trim_left-append (b ∷ pre) s h = rw (h.0) (trim_left-append pre s h.1)

  pub trim_left_id : (s : GoString) → Starts s → trim_left p s ≡ s
  unfolding trim_left
  trim_left_id [] h = refl
  trim_left_id (b ∷ s) h = rw h

  trim_right_all : (s : GoString) → Dropped s → trim_right p s ≡ []
  unfolding trim_right
  trim_right_all [] h = refl
  trim_right_all (b ∷ s) h = rw (trim_right_all s h.1, h.0)

  pub trim_right-append :
      (s post : GoString) → Dropped post → trim_right p (s ++ post) ≡ trim_right p s
  unfolding trim_right
  trim_right-append [] post h = trim_right_all post h
  trim_right-append (b ∷ s) post h = rw (trim_right-append s post h)

  pub trim_right_id : (s : GoString) → Ends s → trim_right p s ≡ s
  unfolding trim_right
  trim_right_id [] h = refl
  trim_right_id (b ∷ []) h = rw h
  trim_right_id (b ∷ c ∷ s) h = rw (trim_right_id (c ∷ s) h) (ground arith)

  -- Trimming takes off what surrounds a text that is trimmed already.
  pub trim_both-append :
      (pre s post : GoString)
      → Dropped pre
      → Dropped post
      → Starts (s ++ post)
      → Ends s
      → trim_both p (pre ++ (s ++ post)) ≡ s
  unfolding trim_both
  trim_both-append pre s post h k a b =
      rw
        (trim_left-append pre (s ++ post) h, trim_left_id (s ++ post) a, trim_right-append s post k)
        (trim_right_id s b)

  pub Starts-append : (s post : GoString) → s ≢ [] → Starts s → Starts (s ++ post)
  Starts-append [] post n h = absurd (n refl)
  Starts-append (b ∷ s) post n h = h

  pub Ends-append : (s t : GoString) → t ≢ [] → Ends t → Ends (s ++ t)
  Ends-append [] t n h = h
  Ends-append (b ∷ []) [] n h = absurd (n refl)
  Ends-append (b ∷ []) (c ∷ t) n h = h
  Ends-append (b ∷ c ∷ s) t n h = Ends-append (c ∷ s) t n h

-- A sum is not empty where a part is not.
pub ne-nil-append : (s t : GoString) → s ≢ [] → s ++ t ≢ []
ne-nil-append [] t h = absurd (h refl)
ne-nil-append (b ∷ s) t h = cc

pub append-ne-nil : (s t : GoString) → t ≢ [] → s ++ t ≢ []
append-ne-nil [] t h = h
append-ne-nil (b ∷ s) t h = cc
