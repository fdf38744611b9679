-- ===== src/Log/Redact/Fold.antt =====
-- Which names are sensitive, whatever the case of their letters.
use go_infrastructure.Prelude.{
  ℕ, ◌<◌, ◌+◌, ◌-◌, ◌≡◌, refl, ap, ◌∙◌, sym, arith, Bool, true, false, Bool-cases, inl, inr, not,
  ◌&&◌, ◌||◌, List, [], ◌∷◌, map, ◌++◌, GoString, All, eq_str, eq_str_iff, equal_fold, lower, all,
  ◌==◌, if◌then◌else◌,
}
use go_infrastructure.Log.Redact.{
  redacted_values, redaction_mask, canonical_header_key, capitalise, is_token, is_upper, is_lower,
  is_sensitive, folded, folds_to_one_of, sensitive_headers, redact_value,
}

same_truth : (a b : Bool) → (a ≡ true → b ≡ true) → (b ≡ true → a ≡ true) → a ≡ b
same_truth true b f g = sym (f refl)
same_truth false true f g = g refl
same_truth false false f g = refl

abbrev byte : Bool → ℕ → ℕ
byte upper c = if upper && is_lower c then c - 32 else if not upper && is_upper c then c + 32 else c

byte-lower : (upper : Bool) (c : ℕ) → byte upper (lower c) ≡ byte upper c
unfolding lower
byte-lower true c = ground arith
byte-lower false c = ground arith

lower-byte : (upper : Bool) (c : ℕ) → lower (byte upper c) ≡ lower c
unfolding lower
lower-byte true c = ground arith
lower-byte false c = ground arith

hyphen-lower : (c : ℕ) → (lower c == b'-') ≡ (c == b'-')
unfolding lower
hyphen-lower c = ground arith

is_lower-is_token : (c : ℕ) → is_lower c ≡ true → is_token c ≡ true
is_lower-is_token c l = elim (Bool-cases (is_upper c)) [ inl u ↦ rw u | inr u ↦ rw (u, l) ]

lower-raised : (c : ℕ) → is_upper c ≡ true → is_lower (lower c) ≡ true
unfolding lower
lower-raised c u = ground arith

lower-same : (c : ℕ) → is_upper c ≡ false → lower c ≡ c
unfolding lower
lower-same c u = ground arith

is_token-lower : (c : ℕ) → is_token (lower c) ≡ is_token c
is_token-lower c = elim (Bool-cases (is_upper c)) [
  | inl u ↦ is_lower-is_token (lower c) (lower-raised c u) ∙ rw u
  | inr u ↦ ap (λ (x : ℕ). is_token x) (lower-same c u)
]

capitalise-lower :
    (upper : Bool) (s : GoString) → capitalise upper (map lower s) ≡ capitalise upper s
unfolding capitalise
capitalise-lower upper [] = refl
capitalise-lower upper (c ∷ s) =
    rw (byte-lower upper c, hyphen-lower c, capitalise-lower (c == b'-') s)

lower-capitalise : (upper : Bool) (s : GoString) → map lower (capitalise upper s) ≡ map lower s
unfolding capitalise
lower-capitalise upper [] = refl
lower-capitalise upper (c ∷ s) = rw (lower-byte upper c, lower-capitalise (c == b'-') s)

all-lower : (s : GoString) → all is_token (map lower s) ≡ all is_token s
all-lower [] = refl
all-lower (c ∷ s) = rw (is_token-lower c, all-lower s)

fold-all : (k key : GoString) → map lower k ≡ map lower key → all is_token k ≡ all is_token key
fold-all k key e = sym (all-lower k) ∙ ap (all is_token) e ∙ all-lower key

-- No text of tokens folds to one that is not.
fold-clash {ℓ} :
    {A : Type ℓ} (k key : GoString)
    → all is_token k ≡ true
    → all is_token key ≡ false
    → map lower k ≡ map lower key
    → A
fold-clash k key t f e = absurd (cc (fold-all k key e))

canonical-fold :
    (k key : GoString)
    → all is_token k ≡ true
    → eq_str (canonical_header_key k) (canonical_header_key key) ≡ equal_fold k key
unfolding equal_fold canonical_header_key
canonical-fold k key t = elim (Bool-cases (all is_token key)) [
  | inl tk ↦
      rw (t, tk)
        (same_truth _ _
          (λ e. (eq_str_iff _ _).1 (
            sym (lower-capitalise true k)
            ∙ ap (map lower) ((eq_str_iff _ _).0 e)
            ∙ lower-capitalise true key))
          (λ e. (eq_str_iff _ _).1 (
            sym (capitalise-lower true k)
            ∙ ap (capitalise true) ((eq_str_iff _ _).0 e)
            ∙ capitalise-lower true key)))
  | inr f ↦
      rw (t, f)
        (same_truth _ _
          (λ e.
            fold-clash k key t f
              (sym (lower-capitalise true k) ∙ ap (map lower) ((eq_str_iff _ _).0 e)))
          (λ e. fold-clash k key t f ((eq_str_iff _ _).0 e)))
]

or_if : (a b : Bool) → (a || b) ≡ (if a then true else b)
or_if true b = refl
or_if false b = refl

-- Whether all bytes of a text are ASCII.
abbrev pub IsAscii : GoString → Type 0
IsAscii s = All (λ (c : ℕ). c < 128) s

folded-IsAscii : (s : GoString) → IsAscii s → folded s ≡ s
unfolding folded
folded-IsAscii [] h = refl
folded-IsAscii (c ∷ s) (b, h) =
    let two : (c == 0xC5) ≡ false = ground arith in
    let three : (c == 0xE2) ≡ false = ground arith in rw (two, three, folded-IsAscii s h)

is_sensitive-folds_to_one_of :
    (names : List GoString) (key : GoString)
    → IsAscii key
    → All (λ k. all is_token k ≡ true) names
    → is_sensitive names (canonical_header_key key) ≡ folds_to_one_of names key
unfolding is_sensitive
is_sensitive-folds_to_one_of [] key a h = refl
is_sensitive-folds_to_one_of (k ∷ ks) key a h =
    rw (canonical-fold k key h.0, is_sensitive-folds_to_one_of ks key a h.1, folded-IsAscii key a)
      (or_if (equal_fold k key) (folds_to_one_of ks key))

default_sensitive :
    (key : GoString)
    → IsAscii key
    → is_sensitive (sensitive_headers ++ []) (canonical_header_key key)
      ≡ folds_to_one_of sensitive_headers key
default_sensitive key a =
    is_sensitive-folds_to_one_of sensitive_headers key a
      (refl, (refl, (refl, (refl, (refl, (refl, (refl, tt)))))))

mask_each :
    (b : Bool) (vs : List GoString)
    → (if b then map (λ v. redaction_mask) vs else vs)
      ≡ map (λ v. if b then redaction_mask else v) vs
mask_each true vs = refl
mask_each false [] = refl
mask_each false (v ∷ vs) = ap (λ (us : List GoString). v ∷ us) (mask_each false vs)

-- `RedactHeaders` with no extra names and `RedactValue` agree on every ASCII name, in any case of its
-- letters: an entry of a header has its values masked exactly where `RedactValue` masks
-- each of them.
pub redacted_values-redact_value :
    (key : GoString) (vs : List GoString)
    → IsAscii key
    → redacted_values [] (canonical_header_key key) vs ≡ map (redact_value key) vs
unfolding redacted_values redact_value
redacted_values-redact_value key vs a =
    ap (λ (b : Bool). if b then map (λ v. redaction_mask) vs else vs) (default_sensitive key a)
    ∙ mask_each (folds_to_one_of sensitive_headers key) vs
