-- ===== src/Prelude/Text.antt =====
-- Go's strings as lists of bytes, with the functions of `strings` that the program calls.
use Prim.Native.Nat.{ℕ, suc, ◌+◌}
use Prim.Native.Char.{code}
use Prim.Native.String.{String}
use mathlib.Core.Path.{◌≡◌, refl}
use mathlib.Core.Logic.{◌↔◌}
use mathlib.Core.Bool.{Bool, true, false, ◌&&◌, ◌||◌}
use mathlib.Core.Option
use mathlib.Core.Option.{Option, none, some}
use mathlib.Core.List.{List, [], ◌∷◌, ◌++◌, map}
use native.Mathlib.Omega.{arith}
use go_infrastructure.Prelude.Tests.{leb, ◌==◌, if◌then◌else◌}

abbrev pub GoString : Type 0
GoString = List ℕ

-- The code points of a literal; its bytes, when the text is ASCII.
abbrev pub codes : String → GoString
codes String.[] = []
codes (String.◌∷◌ c s) = code c ∷ codes s

abbrev pub is_empty {ℓ} : {A : Type ℓ} → List A → Bool
is_empty [] = true
is_empty (x ∷ xs) = false

-- `s == t`
unfoldable pub eq_str : GoString → GoString → Bool
eq_str [] [] = true
eq_str (a ∷ s) (b ∷ t) = (a == b) && eq_str s t
eq_str _ _ = false

pub eq_str_iff : (s t : GoString) → (eq_str s t ≡ true) ↔ (s ≡ t)
unfolding eq_str
eq_str_iff [] [] = (λ _. refl, λ _. refl)
eq_str_iff [] (b ∷ t) = (λ h. cc, λ h. cc)
eq_str_iff (a ∷ s) [] = (λ h. cc, λ h. cc)
eq_str_iff (a ∷ s) (b ∷ t) = ground (arith, eq_str_iff s t)

pub eq_str_refl : (s : GoString) → eq_str s s ≡ true
eq_str_refl s = (eq_str_iff s s).1 refl

-- `strings.HasPrefix`
unfoldable pub has_prefix : GoString → GoString → Bool
has_prefix s [] = true
has_prefix [] (c ∷ p) = false
has_prefix (b ∷ s) (c ∷ p) = (b == c) && has_prefix s p

-- `strings.IndexByte`, with `none` for -1
unfoldable pub index_byte : GoString → ℕ → Option ℕ
index_byte [] c = none
index_byte (b ∷ s) c = if b == c then some 0 else Option.map suc (index_byte s c)

-- Drops the bytes at the front that pass the test.
unfoldable pub trim_left : (ℕ → Bool) → GoString → GoString
trim_left p [] = []
trim_left p (b ∷ s) = let rest = trim_left p s in if p b then rest else b ∷ s

-- Drops the bytes at the end that pass the test: one recursion, from the end.
unfoldable pub trim_right : (ℕ → Bool) → GoString → GoString
trim_right p [] = []
trim_right p (b ∷ s) = let rest = trim_right p s in if p b && is_empty rest then [] else b ∷ rest

unfoldable pub trim_both : (ℕ → Bool) → GoString → GoString
unfolding trim_left trim_right
trim_both p s = trim_right p (trim_left p s)

-- The ASCII white space of `unicode.IsSpace`.
abbrev pub is_space : ℕ → Bool
is_space c = (leb 9 c && leb c 13) || (c == 32)

-- `strings.TrimSpace`, on text whose white space is ASCII
unfoldable pub trim_space : GoString → GoString
unfolding trim_both
trim_space s = trim_both is_space s

unfoldable pub lower : ℕ → ℕ
lower c = if leb b'A' c && leb c b'Z' then c + 32 else c

-- `strings.EqualFold`, on ASCII text
unfoldable pub equal_fold : GoString → GoString → Bool
unfolding lower eq_str
equal_fold s t = eq_str (map lower s) (map lower t)

-- `strings.Split` by one byte
unfoldable pub split : GoString → ℕ → List GoString
split [] sep = [] ∷ []
split (c ∷ s) sep =
    let rest = split s sep in
    if c == sep then [] ∷ rest else elim rest [ [] ↦ (c ∷ []) ∷ [] | p ∷ ps ↦ (c ∷ p) ∷ ps ]

-- `strings.Join`
unfoldable pub join : List GoString → GoString → GoString
join [] sep = []
join (p ∷ []) sep = p
join (p ∷ q ∷ ps) sep = p ++ sep ++ join (q ∷ ps) sep

-- A Go map with string keys, as an association list: the first entry of a key counts.
module _ {ℓ} {V : Type ℓ} where
  unfoldable pub lookup : GoString → List (GoString × V) → Option V
  lookup k [] = none
  lookup k ((j, v) ∷ m) = if eq_str j k then some v else lookup k m

  unfoldable pub insert : GoString → V → List (GoString × V) → List (GoString × V)
  insert k v [] = (k, v) ∷ []
  insert k v ((j, w) ∷ m) = if eq_str j k then (k, v) ∷ m else (j, w) ∷ insert k v m

  pub lookup-insert :
      (k j : GoString) (v : V) (m : List (GoString × V))
      → lookup j (insert k v m) ≡ (if eq_str k j then some v else lookup j m)
  unfolding lookup insert
  lookup-insert k j v [] = refl
  lookup-insert k j v ((i, w) ∷ m) =
      ground (arith, eq_str_iff k j, eq_str_iff i k, eq_str_iff i j, lookup-insert k j v m)
