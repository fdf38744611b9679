-- ===== src/Middleware/Auth.antt =====
-- pkg/middleware/auth/auth.go. Option setters are functions on the record of options; a validator
-- reads and changes the state of the world as a handler does.
pub mod Token
pub mod Access
mod Tests
use go_infrastructure.Prelude.{
  ℕ, Bool, true, false, Option, none, some, List, [], ◌∷◌, GoString, codes, is_empty, length, take,
  drop, leb, equal_fold, trim_space, not, ◌||◌, if◌then◌else◌,
}
use go_infrastructure.Kratos.Defs.{Platform, unauthorized}
use go_infrastructure.Middleware.Handler.{
  Claims, Binding, auth_claims, trace_id, Context, Outcome, returned, panicked, Handler, Middleware,
  with_value, operation_of,
}

unfoldable pub extract_token : GoString → GoString → GoString
extract_token header scheme =
    if is_empty header
    then []
    else if is_empty scheme
    then trim_space header
    else if leb (length header) (length scheme)
        || not (equal_fold (take (length scheme) header) scheme)
    then []
    else trim_space (drop (length scheme) header)

module _ (P : Platform) where
  open P use {Any, Err, KratosError, of_kratos, as_kratos, error_text}

  abbrev pub Validator : Type 0 → Type 0
  Validator W = Context Any → GoString → W → (Option (Claims Any) × Option Err) × W

  pub record Options (W : Type 0) : Type 0 where
    pub validator : Option (Validator W)
    pub skip : Option (GoString → Bool)
    pub header : GoString
    pub scheme : GoString

  unfoldable pub with_validator : {W : Type 0} → Validator W → Options W → Options W
  with_validator v o = record o { validator = some v }

  unfoldable pub with_skip : {W : Type 0} → (GoString → Bool) → Options W → Options W
  with_skip f o = record o { skip = some f }

  pub with_header : {W : Type 0} → GoString → GoString → Options W → Options W
  with_header header scheme o = record o { header = header; scheme = scheme }

  abbrev pub err_unauthorized : KratosError
  err_unauthorized = unauthorized P (codes "UNAUTHORIZED") (codes "missing or invalid credentials")

  -- The newest binding under the package's key; a nil one counts as none.
  newest_claims : List (Binding Any) → Option (Claims Any)
  newest_claims [] = none
  newest_claims (auth_claims c ∷ bs) = c
  newest_claims (trace_id id ∷ bs) = newest_claims bs

  pub from_context : Context Any → Option (Claims Any)
  unfolding newest_claims
  from_context ctx = newest_claims ctx.values

  pub map_err : Err → Err
  map_err err = elim (as_kratos err) [
    | some k ↦ err
    | none ↦ of_kratos (unauthorized P (codes "UNAUTHORIZED") (error_text err))
  ]

  -- `o.skipFn != nil && o.skipFn(op)`
  abbrev pub skips : Option (GoString → Bool) → GoString → Bool
  skips none op = false
  skips (some f) op = f op

  abbrev pub header_of : GoString → Context Any → GoString
  header_of name ctx = elim (ctx.server) [ none ↦ [] | some tr ↦ tr.get name ]

  abbrev reject : {W : Type 0} → Err → W → Outcome P × W
  reject e w = (returned none (some e), w)

  -- What follows the validator's answer.
  admit :
      {W : Type 0}
      → Handler P W
      → Context Any
      → Any
      → (Option (Claims Any) × Option Err) × W
      → Outcome P × W
  admit h ctx req ((claims, some e), w) = reject (map_err e) w
  admit h ctx req ((none, none), w) = reject (of_kratos err_unauthorized) w
  admit h ctx req ((some c, none), w) = h (with_value P (auth_claims (some c)) ctx) req w

  pub serve : {W : Type 0} → Options W → Validator W → Middleware P W
  unfolding admit
  serve o validate h ctx req w =
      let token = extract_token (header_of o.header ctx) o.scheme in
      if skips o.skip (operation_of P ctx)
      then h ctx req w
      else if is_empty token
      then reject (of_kratos err_unauthorized) w
      else admit h ctx req (validate ctx token w)

  abbrev pub defaults : {W : Type 0} → Options W
  defaults = record {
    validator = none;
    skip = none;
    header = codes "authorization";
    scheme = codes "Bearer ";
  }

  unfoldable pub apply : {W : Type 0} → List (Options W → Options W) → Options W → Options W
  apply [] o = o
  apply (opt ∷ opts) o = apply opts (opt o)

  -- `none` is the panic of a server with no validator.
  unfoldable pub server : {W : Type 0} → List (Options W → Options W) → Option (Middleware P W)
  unfolding apply
  server opts =
      let o = apply opts defaults in
      elim (o.validator) [ none ↦ none | some validate ↦ some (serve o validate) ]
