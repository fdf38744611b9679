-- ===== src/Middleware/Ratelimit/Trim.antt =====
-- The two loops of `trim` against trimming at both ends.
use go_infrastructure.Prelude.{
  ℕ, zero, suc, ◌≤◌, ◌≡◌, refl, sym, ap, ◌∙◌, arith, true, false, Bool-cases, inl, inr, [], ◌∷◌,
  ◌++◌, GoString, length, trim_left, trim_right, trim_both, trim_right_id, trim_right-append, Ends,
}
use go_infrastructure.Middleware.Ratelimit.{
  is_blank, trim_front, trim_back, trim, last_byte, without_last,
}

trim_front-trim_left : (s : GoString) → trim_front s ≡ trim_left is_blank s
unfolding trim_front trim_left
trim_front-trim_left [] = refl
trim_front-trim_left (c ∷ s) = rw (trim_front-trim_left s)

split_last : (c : ℕ) (s : GoString) → c ∷ s ≡ without_last (c ∷ s) ++ last_byte (c ∷ s) ∷ []
split_last c [] = refl
split_last c (d ∷ s) = ap (λ t. c ∷ t) (split_last d s)

last-Ends : (c : ℕ) (s : GoString) → is_blank (last_byte (c ∷ s)) ≡ false → Ends is_blank (c ∷ s)
last-Ends c [] h = h
last-Ends c (d ∷ s) h = last-Ends d s h

length-without_last : (c : ℕ) (s : GoString) → length (without_last (c ∷ s)) ≡ length s
length-without_last c [] = refl
length-without_last c (d ∷ s) = ap suc (length-without_last d s)

trim_right-last :
    (c : ℕ) (s : GoString)
    → is_blank (last_byte (c ∷ s)) ≡ true
    → trim_right is_blank (without_last (c ∷ s)) ≡ trim_right is_blank (c ∷ s)
trim_right-last c s h =
    sym (trim_right-append is_blank (without_last (c ∷ s)) (last_byte (c ∷ s) ∷ []) (h, tt))
    ∙ ap (trim_right is_blank) (sym (split_last c s))

trim_back-trim_right : (n : ℕ) (s : GoString) → length s ≤ n → trim_back n s ≡ trim_right is_blank s
unfolding trim_back
trim_back-trim_right zero [] h = unfold trim_right in refl
trim_back-trim_right zero (c ∷ s) h = absurd (omega arith)
trim_back-trim_right (suc n) [] h = unfold trim_right in refl
trim_back-trim_right (suc n) (c ∷ s) h = elim (Bool-cases (is_blank (last_byte (c ∷ s)))) [
  | inl b ↦
      rw b
        (trim_back-trim_right n _ (omega (arith, length-without_last c s)) ∙ trim_right-last c s b)
  | inr b ↦ rw b (sym (trim_right_id is_blank (c ∷ s) (last-Ends c s b)))
]

-- The loops of `trim`, with as many rounds as there are bytes, drop the blanks and tabs at both
-- ends and nothing else.
pub trim-trim_both : (s : GoString) → trim s ≡ trim_both is_blank s
unfolding trim trim_both
trim-trim_both s =
    trim_back-trim_right _ (trim_front s) (omega arith)
    ∙ ap (trim_right is_blank) (trim_front-trim_left s)
