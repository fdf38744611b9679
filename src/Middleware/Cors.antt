-- ===== src/Middleware/Cors.antt =====
-- pkg/middleware/cors/cors.go. A header of net/http is an association list from canonical names to
-- lists of values; every name here is a canonical constant.
pub mod Origins
pub mod Filter
mod Tests
use go_infrastructure.Prelude.{
  ℕ, Bool, true, false, not, ◌&&◌, ◌||◌, Option, none, some, List, [], ◌∷◌, ◌++◌, ℤ, pos, GoString,
  codes, is_empty, eq_str, join, lookup, insert, leb_ℤ, if◌then◌else◌,
}

abbrev pub HttpHeader : Type 0
HttpHeader = List (GoString × List GoString)

abbrev pub allow_origin : GoString
allow_origin = codes "Access-Control-Allow-Origin"

abbrev pub vary : GoString
vary = codes "Vary"

abbrev pub allow_credentials : GoString
allow_credentials = codes "Access-Control-Allow-Credentials"

abbrev pub expose_headers : GoString
expose_headers = codes "Access-Control-Expose-Headers"

abbrev pub allow_methods : GoString
allow_methods = codes "Access-Control-Allow-Methods"

abbrev pub allow_headers : GoString
allow_headers = codes "Access-Control-Allow-Headers"

abbrev pub max_age : GoString
max_age = codes "Access-Control-Max-Age"

-- `h.Set(k, v)`
unfoldable pub set_header : GoString → GoString → HttpHeader → HttpHeader
set_header k v h = insert k (v ∷ []) h

abbrev values : GoString → HttpHeader → List GoString
values k h = elim (lookup k h) [ none ↦ [] | some vs ↦ vs ]

-- `h.Add(k, v)`
unfoldable pub add_header : GoString → GoString → HttpHeader → HttpHeader
add_header k v h = insert k (values k h ++ v ∷ []) h

-- The set `allowedOrigins` is a list; the newest origin comes first.
pub record Options : Type 0 where
  pub allow_any_origin : Bool
  pub allowed_origins : List GoString
  pub allowed_methods : List GoString
  pub allowed_headers : List GoString
  pub exposed_headers : List GoString
  pub credentials : Bool
  pub cache_lifetime : ℤ

abbrev pub default_options : Options
default_options = record {
  allow_any_origin = false;
  allowed_origins = [];
  allowed_methods =
      codes "GET"
      ∷ codes "POST"
      ∷ codes "PUT"
      ∷ codes "DELETE"
      ∷ codes "PATCH"
      ∷ codes "OPTIONS"
      ∷ [];
  allowed_headers = codes "Content-Type" ∷ codes "Authorization" ∷ codes "X-Trace-Id" ∷ [];
  exposed_headers = codes "X-Trace-Id" ∷ [];
  credentials = false;
  cache_lifetime = pos 600_000_000_000;
}

abbrev add_origin : GoString → Options → Options
add_origin origin o =
    if eq_str origin (codes "*")
    then record o { allow_any_origin = true }
    else record o { allowed_origins = origin ∷ o.allowed_origins }

unfoldable pub with_allowed_origins : List GoString → Options → Options
with_allowed_origins [] o = o
with_allowed_origins (origin ∷ origins) o = with_allowed_origins origins (add_origin origin o)

abbrev pub with_allowed_methods : List GoString → Options → Options
with_allowed_methods ms o = record o { allowed_methods = ms }

abbrev pub with_allowed_headers : List GoString → Options → Options
with_allowed_headers hs o = record o { allowed_headers = hs }

abbrev pub with_exposed_headers : List GoString → Options → Options
with_exposed_headers hs o = record o { exposed_headers = hs }

abbrev pub with_allow_credentials : Bool → Options → Options
with_allow_credentials b o = record o { credentials = b }

abbrev pub with_max_age : ℤ → Options → Options
with_max_age d o = record o { cache_lifetime = d }

abbrev pub has_member : GoString → List GoString → Bool
has_member x [] = false
has_member x (y ∷ ys) = eq_str x y || has_member x ys

unfoldable pub origin_allowed : Options → GoString → Bool
origin_allowed o origin = if o.allow_any_origin then true else has_member origin o.allowed_origins

pub record Request : Type 0 where
  pub method : GoString
  pub get : GoString → GoString

-- A response in the making: its header, the status written so far, and the rest of the world.
pub record Response (W : Type 0) : Type 0 where
  pub header : HttpHeader
  pub status : Option ℕ
  pub rest : W

abbrev pub HttpHandler : Type 0 → Type 0
HttpHandler W = Request → Response W → Response W

-- The header that every answer to an allowed origin has.
origin_headers : Options → GoString → HttpHeader → HttpHeader
unfolding set_header add_header
origin_headers o origin h =
    let h1 =
      if o.allow_any_origin && not o.credentials
      then set_header allow_origin (codes "*") h
      else add_header vary (codes "Origin") (set_header allow_origin origin h) in
    let h2 = if o.credentials then set_header allow_credentials (codes "true") h1 else h1 in
    let exposed = join o.exposed_headers (codes ", ") in
    if is_empty exposed then h2 else set_header expose_headers exposed h2

abbrev pub is_preflight : Request → Bool
is_preflight r =
    eq_str r.method (codes "OPTIONS")
    && not (is_empty (r.get (codes "Access-Control-Request-Method")))

-- `max_age_hdr` is `strconv.Itoa(int(d.Seconds()))`, which goes by floating point.
module _ (max_age_hdr : ℤ → GoString) where
  preflight_headers : Options → HttpHeader → HttpHeader
  unfolding set_header
  preflight_headers o h =
      let h1 = set_header allow_methods (join o.allowed_methods (codes ", ")) h in
      let h2 = set_header allow_headers (join o.allowed_headers (codes ", ")) h1 in
      if leb_ℤ o.cache_lifetime (pos 0)
      then h2
      else set_header max_age (max_age_hdr o.cache_lifetime) h2

  pub filter : {W : Type 0} → Options → HttpHandler W → HttpHandler W
  unfolding origin_headers preflight_headers origin_allowed
  filter o next r w =
      let origin = r.get (codes "Origin") in
      if is_empty origin
      then next r w
      else if not (origin_allowed o origin)
      then next r w
      else (let h = origin_headers o origin w.header in
          if is_preflight r
          then record w { header = preflight_headers o h; status = some 204 }
          else next r (record w { header = h }))

  apply : List (Options → Options) → Options → Options
  apply [] o = o
  apply (opt ∷ opts) o = apply opts (opt o)

  -- `New`
  pub new : {W : Type 0} → List (Options → Options) → HttpHandler W → HttpHandler W
  unfolding apply filter
  new opts = filter (apply opts default_options)
