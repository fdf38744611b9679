-- ===== src/Log/Redact/Tests.antt =====
-- Redaction at a header with a token and a tenant's name.
use mathlib.Core.Option
use go_infrastructure.Prelude.{
  ◌≡◌, refl, arith, has_prefix, equal_fold, [], ◌∷◌, ◌++◌, map, codes, lookup, eq_str, insert,
  if◌then◌else◌,
}
use go_infrastructure.Log.Redact.{
  Header, is_sensitive, redact_headers, redacted_values, copy_redacted, sensitive_headers,
  redaction_mask, canonical_header_key, capitalise, redact_value, folded,
}
use go_infrastructure.Log.Redact.Fold.{redacted_values-redact_value}
use go_infrastructure.Log.Redact.Masked.{last_of, redact_headers-masked}

abbrev inbound : Header
inbound =
    (codes "aUTHORIZATION", codes "Bearer x" ∷ []) ∷ (codes "X-Tenant", codes "kris" ∷ []) ∷ []

redact_headers-masked_run : lookup (codes "Authorization") (redact_headers inbound []) ≡ (
    if is_sensitive (sensitive_headers ++ []) (codes "Authorization")
    then Option.map (map (λ v. redaction_mask)) (last_of (codes "Authorization") inbound)
    else last_of (codes "Authorization") inbound)
redact_headers-masked_run = redact_headers-masked inbound [] (codes "Authorization")

redact_headers_run :
    redact_headers inbound []
    ≡ (codes "Authorization", codes "***" ∷ []) ∷ (codes "X-Tenant", codes "kris" ∷ []) ∷ []
unfolding redact_headers copy_redacted redacted_values is_sensitive canonical_header_key capitalise
    insert eq_str
redact_headers_run = refl

redacted_values-redact_value_example :
    redacted_values [] (canonical_header_key (codes "x-api-KEY")) (codes "k1" ∷ codes "k2" ∷ [])
    ≡ map (redact_value (codes "x-api-KEY")) (codes "k1" ∷ codes "k2" ∷ [])
redacted_values-redact_value_example =
    redacted_values-redact_value (codes "x-api-KEY") (codes "k1" ∷ codes "k2" ∷ []) (omega arith)

-- A name with U+017F for the s: `RedactValue` masks its value and `RedactHeaders` does not.
long_s_run :
    (redact_value (0xC5 ∷ 0xBF ∷ codes "et-Cookie") (codes "k1") ≡ codes "***")
    × (redacted_values [] (canonical_header_key (0xC5 ∷ 0xBF ∷ codes "et-Cookie")) (codes "k1" ∷ [])
        ≡ codes "k1" ∷ [])
unfolding redact_value folded redacted_values is_sensitive canonical_header_key capitalise
    equal_fold has_prefix eq_str
long_s_run = (refl, refl)
