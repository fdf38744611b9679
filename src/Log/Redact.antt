-- ===== src/Log/Redact.antt =====
-- pkg/log/redact.go. A header is the list of its entries in the order in which `range` gives them;
-- a map that is built is an association list.
pub mod Masked
pub mod Fold
mod Tests
use go_infrastructure.Prelude.{
  ℕ, ◌+◌, ◌-◌, Bool, true, false, not, ◌&&◌, ◌||◌, Option, none, some, List, [], ◌∷◌, ◌++◌, map,
  GoString, codes, is_empty, eq_str, equal_fold, has_prefix, drop, lookup, insert, leb, all, ◌==◌,
  if◌then◌else◌,
}

abbrev pub Header : Type 0
Header = List (GoString × List GoString)

abbrev pub sensitive_headers : List GoString
sensitive_headers =
    codes "Authorization"
    ∷ codes "Proxy-Authorization"
    ∷ codes "Cookie"
    ∷ codes "Set-Cookie"
    ∷ codes "X-Auth-Token"
    ∷ codes "X-Api-Key"
    ∷ codes "X-Csrf-Token"
    ∷ []

abbrev pub redaction_mask : GoString
redaction_mask = codes "***"

abbrev is_upper : ℕ → Bool
is_upper c = leb b'A' c && leb c b'Z'

abbrev is_lower : ℕ → Bool
is_lower c = leb b'a' c && leb c b'z'

abbrev has_byte : ℕ → GoString → Bool
has_byte c [] = false
has_byte c (b ∷ s) = (c == b) || has_byte c s

-- A byte of a token in the sense of HTTP.
abbrev is_token : ℕ → Bool
is_token c =
    is_upper c || is_lower c || (leb b'0' c && leb c b'9') || has_byte c (codes "!#$%&'*+-.^_`|~")

-- The first letter and those after a hyphen are upper case, the others lower case.
capitalise : Bool → GoString → GoString
capitalise upper [] = []
capitalise upper (c ∷ s) =
    let rest = capitalise (c == b'-') s in
    (if upper && is_lower c then c - 32 else if not upper && is_upper c then c + 32 else c) ∷ rest

-- `http.CanonicalHeaderKey`: a name with a byte that is of no token is left as it is.
unfoldable pub canonical_header_key : GoString → GoString
unfolding capitalise
canonical_header_key s = if all is_token s then capitalise true s else s

-- Whether a name is in the set that `RedactHeaders` builds from a list.
pub is_sensitive : List GoString → GoString → Bool
is_sensitive [] canon = false
is_sensitive (k ∷ ks) canon = eq_str (canonical_header_key k) canon || is_sensitive ks canon

pub redacted_values : List GoString → GoString → List GoString → List GoString
unfolding is_sensitive
redacted_values extra canon vs =
    if is_sensitive (sensitive_headers ++ extra) canon then map (λ v. redaction_mask) vs else vs

copy_redacted : List GoString → Header → Header → Header
unfolding redacted_values
copy_redacted extra [] out = out
copy_redacted extra ((k, vs) ∷ h) out =
    copy_redacted extra h
      (insert (canonical_header_key k) (redacted_values extra (canonical_header_key k) vs) out)

pub redact_headers : Header → List GoString → Header
unfolding copy_redacted
redact_headers h extra = if is_empty h then [] else copy_redacted extra h []

-- A name with the runes outside of ASCII that fold to an ASCII letter, U+017F to s and U+212A to k,
-- replaced by that letter: `strings.EqualFold` with an ASCII text compares this.
unfoldable pub folded : GoString → GoString
folded [] = []
folded (c ∷ s) =
    let rest = folded s in
    if (c == 0xC5) && has_prefix s (0xBF ∷ [])
    then b's' ∷ drop 1 rest
    else if (c == 0xE2) && has_prefix s (0x84 ∷ 0xAA ∷ [])
    then b'k' ∷ drop 2 rest
    else c ∷ rest

abbrev pub folds_to_one_of : List GoString → GoString → Bool
folds_to_one_of [] key = false
folds_to_one_of (s ∷ ss) key = if equal_fold s (folded key) then true else folds_to_one_of ss key

unfoldable pub redact_value : GoString → GoString → GoString
redact_value key value = if folds_to_one_of sensitive_headers key then redaction_mask else value
