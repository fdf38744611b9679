-- ===== src/Config/Getters.antt =====
-- The typed readers of the environment.
use go_infrastructure.Prelude.{
  ◌≡◌, ◌≢◌, ◌⊎◌, refl, arith, false, inl, inr, Option, none, some, [], ◌∷◌, GoString, is_empty,
  lookup,
}
use go_infrastructure.Config.{Environ, must_get_secret, get_secret}

secret_cases :
    (o : Option GoString)
    → (((o ≡ none) ⊎ (o ≡ some [])) ⊎ ((v : GoString) × (o ≡ some v) × (v ≢ [])))
secret_cases none = inl (inl refl)
secret_cases (some []) = inl (inr refl)
secret_cases (some (c ∷ v)) = inr (c ∷ v, refl, cc)

is_empty-false : (v : GoString) → v ≢ [] → is_empty v ≡ false
is_empty-false [] h = absurd (h refl)
is_empty-false (c ∷ v) h = refl

-- A required secret that is returned is set and not empty, and is what `GetSecret` returns; the
-- call panics exactly where `GetSecret` is empty.
pub must_get_secret_lem :
    (env : Environ) (key : GoString)
    → ((must_get_secret env key ≡ none) × (get_secret env key ≡ []))
      ⊎ ((v : GoString) × (must_get_secret env key ≡ some v)
          × (get_secret env key ≡ v)
          × (lookup key env ≡ some v)
          × (v ≢ []))
unfolding must_get_secret get_secret
must_get_secret_lem env key = elim (secret_cases (lookup key env)) [
  | inl (inl n) ↦ inl (ground arith)
  | inl (inr e) ↦ inl (ground arith)
  | inr (v, s, h) ↦ inr (v, ground (arith, is_empty-false v h), ground arith, s, h)
]
