-- ===== src/Middleware/Auth/Token.antt =====
-- Reading the token out of a header value.
use go_infrastructure.Prelude.{
  ◌≤◌, ◌≡◌, ◌≢◌, refl, sym, ap, ◌∙◌, arith, true, false, ◌⊎◌, [], ◌∷◌, ◌++◌, map, GoString,
  is_empty, length, take, leb, equal_fold, eq_str_iff, trim_space, is_space, Starts, Ends, Dropped,
  trim_both-append, length-map, length-append, take-append, drop-append, lower, Starts-append,
  ne-nil-append, append-ne-nil,
}
use go_infrastructure.Middleware.Auth.{extract_token}

equal_fold-length : (s t : GoString) → equal_fold s t ≡ true → length s ≡ length t
unfolding equal_fold
equal_fold-length s t h =
    sym (length-map lower s)
    ∙ ap length ((eq_str_iff (map lower s) (map lower t)).0 h)
    ∙ length-map lower t

trim_space-append :
    (pre token post : GoString)
    → token ≢ []
    → Starts is_space token
    → Ends is_space token
    → Dropped is_space pre
    → Dropped is_space post
    → trim_space (pre ++ (token ++ post)) ≡ token
unfolding trim_space
trim_space-append pre token post n a b h k =
    trim_both-append is_space pre token post h k (Starts-append is_space token post n a) b

is_empty-false : (s : GoString) → s ≢ [] → is_empty s ≡ false
is_empty-false [] h = absurd (h refl)
is_empty-false (b ∷ s) h = refl

longer : (s t : GoString) → t ≢ [] → leb (length (s ++ t)) (length s) ≡ false
longer s [] h = absurd (h refl)
longer s (b ∷ t) h = ground (arith, length-append s (b ∷ t))

after_scheme :
    (spelled scheme rest : GoString)
    → scheme ≢ []
    → rest ≢ []
    → equal_fold spelled scheme ≡ true
    → extract_token (spelled ++ rest) scheme ≡ trim_space rest
unfolding extract_token
after_scheme spelled scheme rest n m f =
    let e = equal_fold-length spelled scheme f in
    rw (
      is_empty-false (spelled ++ rest) (append-ne-nil spelled rest m),
      is_empty-false scheme n,
      ← e,
      longer spelled rest m,
      take-append spelled rest,
      f,
      drop-append spelled rest,
    )

-- A header that spells the scheme in any case and goes on with the token, white space around it,
-- gives exactly the token. The token is not empty and has no white space at its ends.
pub extract_token-append :
    (spelled scheme pre token post : GoString)
    → scheme ≢ []
    → equal_fold spelled scheme ≡ true
    → token ≢ []
    → Starts is_space token
    → Ends is_space token
    → Dropped is_space pre
    → Dropped is_space post
    → extract_token (spelled ++ (pre ++ (token ++ post))) scheme ≡ token
extract_token-append spelled scheme pre token post n f t a b h k =
    after_scheme spelled scheme (pre ++ (token ++ post)) n
      (append-ne-nil pre (token ++ post) (ne-nil-append token post t)) f
    ∙ trim_space-append pre token post t a b h k

-- A header that is no longer than the scheme, or that does not begin with the scheme in any case,
-- gives no token.
pub extract_token-other :
    (header scheme : GoString)
    → scheme ≢ []
    → (length header ≤ length scheme) ⊎ (equal_fold (take (length scheme) header) scheme ≡ false)
    → extract_token header scheme ≡ []
unfolding extract_token
extract_token-other header scheme n f = ground (arith, is_empty-false scheme n)
