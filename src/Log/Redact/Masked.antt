-- ===== src/Log/Redact/Masked.antt =====
-- What a reader of a redacted header finds under a name.
use mathlib.Core.Option
use go_infrastructure.Prelude.{
  ◌≡◌, refl, ap, ◌∙◌, Option, none, some, List, [], ◌∷◌, ◌++◌, map, GoString, eq_str, eq_str_iff,
  lookup, insert, lookup-insert, if◌then◌else◌, Bool-cases, inl, inr,
}
use go_infrastructure.Log.Redact.{
  Header, canonical_header_key, is_sensitive, redacted_values, copy_redacted, redact_headers,
  sensitive_headers, redaction_mask,
}

-- The values of the last entry whose canonical name is `name`.
abbrev pub last_of : GoString → Header → Option (List GoString)
last_of name [] = none
last_of name ((k, vs) ∷ h) = elim (last_of name h) [
  | some us ↦ some us
  | none ↦ if eq_str (canonical_header_key k) name then some vs else none
]

abbrev pub shown : List GoString → GoString → Option (List GoString) → Option (List GoString)
shown extra name none = none
shown extra name (some vs) = some (redacted_values extra name vs)

or_old : Option (List GoString) → Option (List GoString) → Option (List GoString)
or_old none old = old
or_old (some vs) old = some vs

or_old-none : (o : Option (List GoString)) → or_old o none ≡ o
unfolding or_old
or_old-none none = refl
or_old-none (some vs) = refl

-- What one entry adds, by whether a later entry has the name.
put_entry :
    (extra : List GoString) (name canon : GoString) (vs : List GoString) (out : Header)
    (later : Option (List GoString))
    → or_old
        (shown extra name later)
        (lookup name (insert canon (redacted_values extra canon vs) out))
      ≡ or_old
          (shown extra name
            (elim later [ some us ↦ some us | none ↦ if eq_str canon name then some vs else none ]))
          (lookup name out)
unfolding or_old
put_entry extra name canon vs out (some us) = refl
put_entry extra name canon vs out none = elim (Bool-cases (eq_str canon name)) [
  | inl e ↦
      lookup-insert canon name (redacted_values extra canon vs) out
      ∙ rw (e, (eq_str_iff canon name).0 e)
  | inr f ↦ lookup-insert canon name (redacted_values extra canon vs) out ∙ rw f
]

lookup-copy_redacted :
    (extra : List GoString) (name : GoString) (h out : Header)
    → lookup name (copy_redacted extra h out)
      ≡ or_old (shown extra name (last_of name h)) (lookup name out)
unfolding copy_redacted or_old
lookup-copy_redacted extra name [] out = refl
lookup-copy_redacted extra name ((k, vs) ∷ h) out =
    lookup-copy_redacted extra name h _
    ∙ put_entry extra name (canonical_header_key k) vs out (last_of name h)

copy-redact_headers :
    (h : Header) (extra : List GoString) → redact_headers h extra ≡ copy_redacted extra h []
unfolding redact_headers copy_redacted
copy-redact_headers [] extra = refl
copy-redact_headers (kv ∷ h) extra = refl

lookup-redacted :
    (h : Header) (extra : List GoString) (name : GoString)
    → lookup name (redact_headers h extra) ≡ shown extra name (last_of name h)
unfolding lookup
lookup-redacted h extra name =
    ap (lookup name) (copy-redact_headers h extra)
    ∙ lookup-copy_redacted extra name h []
    ∙ or_old-none (shown extra name (last_of name h))

split_shown :
    (extra : List GoString) (name : GoString) (o : Option (List GoString))
    → shown extra name o ≡ (
        if is_sensitive (sensitive_headers ++ extra) name
        then Option.map (map (λ v. redaction_mask)) o
        else o)
unfolding redacted_values
split_shown extra name none = elim (Bool-cases (is_sensitive (sensitive_headers ++ extra) name)) [
  | inl e ↦ rw e
  | inr f ↦ rw f
]
split_shown extra name (some vs) =
    elim (Bool-cases (is_sensitive (sensitive_headers ++ extra) name)) [
      | inl e ↦ rw e
      | inr f ↦ rw f
    ]

-- A redacted header has, under each name, the values of the last entry of the input whose canonical
-- name it is: every one of them masked where the name is the canonical form of one of the default or
-- the extra sensitive names, and as they were where it is not.
pub redact_headers-masked :
    (h : Header) (extra : List GoString) (name : GoString)
    → lookup name (redact_headers h extra) ≡ (
        if is_sensitive (sensitive_headers ++ extra) name
        then Option.map (map (λ v. redaction_mask)) (last_of name h)
        else last_of name h)
redact_headers-masked h extra name =
    lookup-redacted h extra name ∙ split_shown extra name (last_of name h)
