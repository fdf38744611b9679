-- ===== src/Middleware/Cors/Origins.antt =====
-- Which origins the options allow.
use go_infrastructure.Prelude.{
  ◌≡◌, ◌∙◌, arith, ◌||◌, List, [], ◌∷◌, GoString, codes, eq_str, eq_str_iff,
}
use go_infrastructure.Middleware.Cors.{
  Options, with_allowed_origins, origin_allowed, has_member, add_origin,
}

abbrev pub wildcard : GoString
wildcard = codes "*"

add_origin-origin_allowed :
    (origin : GoString) (o : Options) (x : GoString)
    → origin_allowed (add_origin origin o) x
      ≡ (origin_allowed o x || (eq_str wildcard origin || eq_str x origin))
unfolding origin_allowed
add_origin-origin_allowed origin o x =
    ground (arith, eq_str_iff origin wildcard, eq_str_iff wildcard origin, eq_str_iff x origin)

-- An origin is allowed after `WithAllowedOrigins` exactly where it was before, or the argument has
-- the wildcard, or it has the origin itself.
pub with_allowed_origins-origin_allowed :
    (origins : List GoString) (o : Options) (x : GoString)
    → origin_allowed (with_allowed_origins origins o) x
      ≡ (origin_allowed o x || (has_member wildcard origins || has_member x origins))
unfolding with_allowed_origins origin_allowed
with_allowed_origins-origin_allowed [] o x = ground arith
with_allowed_origins-origin_allowed (origin ∷ origins) o x =
    with_allowed_origins-origin_allowed origins _ x
    ∙ ground (arith, add_origin-origin_allowed origin o x)
