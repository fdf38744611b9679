-- ===== src/Middleware/Cors/Filter.antt =====
-- What the filter does to requests with an allowed origin, and to all others.
use go_infrastructure.Prelude.{
  ◌≡◌, ◌⊎◌, inl, inr, refl, ap, ◌∙◌, Bool, true, false, Bool-cases, not, ◌&&◌, some, [], ◌∷◌, ℤ,
  pos, GoString, codes, is_empty, eq_str, join, lookup, lookup-insert, eq_str_refl, leb_ℤ,
  if◌then◌else◌,
}
use go_infrastructure.Middleware.Cors.{
  HttpHeader, Options, Request, Response, HttpHandler, origin_allowed, origin_headers,
  preflight_headers, filter, is_preflight, allow_origin, vary, allow_credentials, expose_headers,
  allow_methods, allow_headers, max_age, set_header, add_header,
}

lookup-set_header :
    (k j v : GoString) (h : HttpHeader)
    → lookup j (set_header k v h) ≡ (if eq_str k j then some (v ∷ []) else lookup j h)
unfolding set_header
lookup-set_header k j v h = lookup-insert k j (v ∷ []) h

set_header_other :
    (k j v : GoString) (h : HttpHeader)
    → eq_str k j ≡ false
    → lookup j (set_header k v h) ≡ lookup j h
set_header_other k j v h e = lookup-set_header k j v h ∙ rw e

set_header_self : (k v : GoString) (h : HttpHeader) → lookup k (set_header k v h) ≡ some (v ∷ [])
set_header_self k v h = lookup-set_header k k v h ∙ rw (eq_str_refl k)

lookup-add_header :
    (k j v : GoString) (h : HttpHeader)
    → eq_str k j ≡ false
    → lookup j (add_header k v h) ≡ lookup j h
unfolding add_header
lookup-add_header k j v h e = lookup-insert k j _ h ∙ rw e

-- The value of Access-Control-Allow-Origin.
abbrev pub granted : Options → GoString → GoString
granted o origin = if o.allow_any_origin && not o.credentials then codes "*" else origin

-- The header names differ.
allow_origin-vary : eq_str vary allow_origin ≡ false
unfolding eq_str
allow_origin-vary = refl

allow_origin-allow_credentials : eq_str allow_credentials allow_origin ≡ false
unfolding eq_str
allow_origin-allow_credentials = refl

allow_origin-expose_headers : eq_str expose_headers allow_origin ≡ false
unfolding eq_str
allow_origin-expose_headers = refl

max_age_other : eq_str max_age allow_methods ≡ false
unfolding eq_str
max_age_other = refl

headers_other : eq_str allow_headers allow_methods ≡ false
unfolding eq_str
headers_other = refl

set_if :
    (b : Bool) (k j v : GoString) (h : HttpHeader)
    → eq_str k j ≡ false
    → lookup j (if b then set_header k v h else h) ≡ lookup j h
set_if true k j v h e = set_header_other k j v h e
set_if false k j v h e = refl

set_unless :
    (b : Bool) (k j v : GoString) (h : HttpHeader)
    → eq_str k j ≡ false
    → lookup j (if b then h else set_header k v h) ≡ lookup j h
set_unless false k j v h e = set_header_other k j v h e
set_unless true k j v h e = refl

first_header :
    (b : Bool) (origin : GoString) (h : HttpHeader)
    → lookup allow_origin (
        if b
        then set_header allow_origin (codes "*") h
        else add_header vary (codes "Origin") (set_header allow_origin origin h))
      ≡ some ((if b then codes "*" else origin) ∷ [])
first_header true origin h = set_header_self allow_origin (codes "*") h
first_header false origin h =
    lookup-add_header vary allow_origin (codes "Origin") _ allow_origin-vary
    ∙ set_header_self allow_origin origin h

origin_headers-allow_origin :
    (o : Options) (origin : GoString) (h : HttpHeader)
    → lookup allow_origin (origin_headers o origin h) ≡ some (granted o origin ∷ [])
unfolding origin_headers
origin_headers-allow_origin o origin h =
    set_unless (is_empty (join o.exposed_headers (codes ", "))) expose_headers allow_origin _ _
      allow_origin-expose_headers
    ∙ set_if o.credentials allow_credentials allow_origin _ _ allow_origin-allow_credentials
    ∙ first_header (o.allow_any_origin && not o.credentials) origin h

module _ (max_age_hdr : ℤ → GoString) where
  preflight-other :
      (o : Options) (j : GoString) (h : HttpHeader)
      → eq_str allow_methods j ≡ false
      → eq_str allow_headers j ≡ false
      → eq_str max_age j ≡ false
      → lookup j (preflight_headers max_age_hdr o h) ≡ lookup j h
  unfolding preflight_headers
  preflight-other o j h m a x =
      set_unless (leb_ℤ o.cache_lifetime (pos 0)) max_age j _ _ x
      ∙ set_header_other allow_headers j _ _ a
      ∙ set_header_other allow_methods j _ _ m

  preflight-allow_origin :
      (o : Options) (h : HttpHeader)
      → lookup allow_origin (preflight_headers max_age_hdr o h) ≡ lookup allow_origin h
  unfolding eq_str
  preflight-allow_origin o h = preflight-other o allow_origin h refl refl refl

  preflight-allow_methods :
      (o : Options) (h : HttpHeader)
      → lookup allow_methods (preflight_headers max_age_hdr o h)
        ≡ some (join o.allowed_methods (codes ", ") ∷ [])
  unfolding preflight_headers
  preflight-allow_methods o h =
      set_unless (leb_ℤ o.cache_lifetime (pos 0)) max_age allow_methods _ _ max_age_other
      ∙ set_header_other allow_headers allow_methods _ _ headers_other
      ∙ set_header_self allow_methods _ _

  filter-answer :
      {W : Type 0} (o : Options) (next : HttpHandler W) (r : Request) (w : Response W)
      → is_empty (r.get (codes "Origin")) ≡ false
      → origin_allowed o (r.get (codes "Origin")) ≡ true
      → is_preflight r ≡ true
      → filter max_age_hdr o next r w ≡ record w {
        header =
            preflight_headers max_age_hdr o (origin_headers o (r.get (codes "Origin")) w.header);
        status = some 204;
      }
  unfolding filter
  filter-answer o next r w n a p = rw (n, a, p)

  -- A request with no origin, or with one that the options do not allow, goes to the handler behind
  -- with the response untouched.
  pub filter-pass :
      {W : Type 0} (o : Options) (next : HttpHandler W) (r : Request) (w : Response W)
      → (r.get (codes "Origin") ≡ []) ⊎ (origin_allowed o (r.get (codes "Origin")) ≡ false)
      → filter max_age_hdr o next r w ≡ next r w
  unfolding filter
  filter-pass o next r w (inl e) = rw e
  filter-pass o next r w (inr e) = elim (Bool-cases (is_empty (r.get (codes "Origin")))) [
    | inl t ↦ rw t
    | inr f ↦ rw (f, e)
  ]

  -- A request of an allowed origin that is no preflight goes to the handler behind, and the response
  -- has by then the granted origin: the wildcard where any origin is allowed without credentials,
  -- else the origin of the request.
  pub filter-actual :
      {W : Type 0} (o : Options) (next : HttpHandler W) (r : Request) (w : Response W)
      → is_empty (r.get (codes "Origin")) ≡ false
      → origin_allowed o (r.get (codes "Origin")) ≡ true
      → is_preflight r ≡ false
      → (h : HttpHeader) × (filter max_age_hdr o next r w ≡ next r (record w { header = h }))
        × (lookup allow_origin h ≡ some (granted o (r.get (codes "Origin")) ∷ []))
  unfolding filter
  filter-actual o next r w n a p = (
    origin_headers o (r.get (codes "Origin")) w.header,
    rw (n, a, p),
    origin_headers-allow_origin o _ w.header,
  )

  -- A preflight of an allowed origin is answered with status 204, whatever the handler behind, which
  -- changes nothing; the response has the granted origin and the configured methods.
  pub filter-preflight :
      {W : Type 0} (o : Options) (next : HttpHandler W) (r : Request) (w : Response W)
      → is_empty (r.get (codes "Origin")) ≡ false
      → origin_allowed o (r.get (codes "Origin")) ≡ true
      → is_preflight r ≡ true
      → ((filter max_age_hdr o next r w).status ≡ some 204)
        × ((filter max_age_hdr o next r w).rest ≡ w.rest)
        × (lookup allow_origin (filter max_age_hdr o next r w).header
            ≡ some (granted o (r.get (codes "Origin")) ∷ []))
        × (lookup allow_methods (filter max_age_hdr o next r w).header
            ≡ some (join o.allowed_methods (codes ", ") ∷ []))
  filter-preflight o next r w n a p =
      let e = filter-answer o next r w n a p in
      (
        ap (λ x. x.status) e,
        ap (λ x. x.rest) e,
        ap (λ x. lookup allow_origin x.header) e
            ∙ preflight-allow_origin o _
            ∙ origin_headers-allow_origin o _ w.header,
        ap (λ x. lookup allow_methods x.header) e ∙ preflight-allow_methods o _,
      )
