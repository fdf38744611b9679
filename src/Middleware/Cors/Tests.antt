-- ===== src/Middleware/Cors/Tests.antt =====
-- The cross-origin theorems at one preflight and one plain request.
use go_infrastructure.Prelude.{
  ℕ, ◌≡◌, inl, refl, true, ◌||◌, none, some, [], ◌∷◌, GoString, codes, eq_str, lookup, join, ℤ,
  if◌then◌else◌,
}
use go_infrastructure.Middleware.Cors.{
  HttpHeader, Options, Request, Response, HttpHandler, filter, with_allowed_origins, origin_allowed,
  has_member, default_options, allow_origin, allow_methods,
}
use go_infrastructure.Middleware.Cors.Origins.{wildcard, with_allowed_origins-origin_allowed}
use go_infrastructure.Middleware.Cors.Filter.{filter-pass, filter-actual, filter-preflight}

abbrev app : GoString
app = codes "https://app"

abbrev one_origin : Options
one_origin = record default_options { allowed_origins = app ∷ [] }

abbrev printed : ℤ → GoString
printed d = codes "600"

abbrev request : GoString → GoString → Request
request method origin = record {
  method = method;
  get = λ k.
      if eq_str k (codes "Origin")
      then origin
      else if eq_str k (codes "Access-Control-Request-Method")
      then codes "PUT"
      else [];
}

abbrev blank : Response ℕ
blank = record { header = []; status = none; rest = 0 }

abbrev upstream : HttpHandler ℕ
upstream r w = record w { status = some 200; rest = 1 }

with_allowed_origins-origin_allowed_run :
    origin_allowed (with_allowed_origins (app ∷ []) default_options) app ≡ (
      origin_allowed default_options app
      || (has_member wildcard (app ∷ []) || has_member app (app ∷ [])))
with_allowed_origins-origin_allowed_run =
    with_allowed_origins-origin_allowed (app ∷ []) default_options app

origin_run : origin_allowed (with_allowed_origins (app ∷ []) default_options) app ≡ true
unfolding origin_allowed with_allowed_origins eq_str
origin_run = refl

filter-pass_run :
    filter printed one_origin upstream (request (codes "GET") []) blank
    ≡ upstream (request (codes "GET") []) blank
unfolding eq_str
filter-pass_run =
    filter-pass printed one_origin upstream (request (codes "GET") []) blank (inl refl)

filter-actual_run :
    (h : HttpHeader) × (filter printed one_origin upstream (request (codes "GET") app) blank
      ≡ upstream (request (codes "GET") app) (record blank { header = h }))
    × (lookup allow_origin h ≡ some (app ∷ []))
unfolding eq_str origin_allowed
filter-actual_run =
    filter-actual printed one_origin upstream (request (codes "GET") app) blank refl refl refl

filter-preflight_run :
    ((filter printed one_origin upstream (request (codes "OPTIONS") app) blank).status ≡ some 204)
    × ((filter printed one_origin upstream (request (codes "OPTIONS") app) blank).rest ≡ 0)
    × (lookup allow_origin
          (filter printed one_origin upstream (request (codes "OPTIONS") app) blank).header
        ≡ some (app ∷ []))
    × (lookup allow_methods
          (filter printed one_origin upstream (request (codes "OPTIONS") app) blank).header
        ≡ some (join one_origin.allowed_methods (codes ", ") ∷ []))
unfolding eq_str origin_allowed
filter-preflight_run =
    filter-preflight printed one_origin upstream (request (codes "OPTIONS") app) blank refl refl
      refl
