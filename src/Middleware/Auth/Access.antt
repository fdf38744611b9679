-- ===== src/Middleware/Auth/Access.antt =====
-- Who reaches a handler behind the auth middleware.
use go_infrastructure.Prelude.{
  ◌⊎◌, ◌≡◌, ◌≢◌, refl, false, Bool-cases, inl, inr, Option, none, some, Option-cases, [], GoString,
  is_empty,
}
use go_infrastructure.Kratos.Defs.{Platform}
use go_infrastructure.Middleware.Handler.{
  Claims, auth_claims, Context, returned, Handler, with_value, operation_of,
}
use go_infrastructure.Middleware.Auth.{
  extract_token, Options, Validator, serve, admit, skips, header_of, err_unauthorized, from_context,
  map_err,
}

module _ (P : Platform) where
  open P use {
    Any, Err, KratosError, of_kratos, as_kratos, as_kratos-of_kratos, code, code-new_error, reason,
  }

  -- The token that a request carries under the given options.
  abbrev pub token_of : {W : Type 0} → Options P W → Context Any → GoString
  token_of o ctx = extract_token (header_of P o.header ctx) o.scheme

  from_context-with_value :
      (c : Claims Any) (ctx : Context Any)
      → from_context P (with_value P (auth_claims (some c)) ctx) ≡ some c
  unfolding from_context
  from_context-with_value c ctx = refl

  admit_agrees :
      {W : Type 0} (h h' : Handler P W) (ctx : Context Any) (req : Any)
      (answer : (Option (Claims Any) × Option Err) × W)
      → ((c : Claims Any) (w' : W)
          → answer ≡ ((some c, none), w')
          → (inner : Context Any) → from_context P inner ≡ some c
          → h inner req w' ≡ h' inner req w')
      → admit P h ctx req answer ≡ admit P h' ctx req answer
  unfolding admit
  admit_agrees h h' ctx req ((claims, some e), w) same = refl
  admit_agrees h h' ctx req ((none, none), w) same = refl
  admit_agrees h h' ctx req ((some c, none), w) same =
      same c w refl (with_value P (auth_claims (some c)) ctx) (from_context-with_value c ctx)

  -- Outside the skipped operations the answer depends on the handler only through its calls with
  -- claims that the validator returned, without an error, for the request's token: two handlers
  -- that agree on those calls cannot be told apart.
  pub serve_authenticated :
      {W : Type 0} (o : Options P W) (validate : Validator P W) (h h' : Handler P W)
      (ctx : Context Any) (req : Any) (w : W)
      → skips P o.skip (operation_of P ctx) ≡ false
      → ((c : Claims Any) (w' : W)
          → validate ctx (token_of o ctx) w ≡ ((some c, none), w')
          → (inner : Context Any) → from_context P inner ≡ some c
          → h inner req w' ≡ h' inner req w')
      → serve P o validate h ctx req w ≡ serve P o validate h' ctx req w
  unfolding serve
  serve_authenticated o validate h h' ctx req w s same =
      elim (Bool-cases (is_empty (token_of o ctx))) [
        | inl e ↦ rw (s, e)
        | inr e ↦ rw (s, e) (admit_agrees h h' ctx req _ same)
      ]

  -- Outside the skipped operations, without a token, the handler and the validator are not called: the world is as it was, and the
  -- answer is a kratos error of code 401.
  pub serve_no_token :
      {W : Type 0} (o : Options P W) (validate : Validator P W) (h : Handler P W)
      (ctx : Context Any) (req : Any) (w : W)
      → skips P o.skip (operation_of P ctx) ≡ false
      → token_of o ctx ≡ []
      → (serve P o validate h ctx req w
          ≡ (returned none (some (of_kratos (err_unauthorized P))), w))
        × (code (err_unauthorized P) ≡ 401)
  unfolding serve
  serve_no_token o validate h ctx req w s t = (rw (s, t), code-new_error _ _ _)

  -- What becomes of a validator's error.
  abbrev pub Mapped : Err → Err → Type 0
  Mapped e out =
      ((out ≡ e) × (as_kratos e ≢ none))
      ⊎ ((k : KratosError) × (as_kratos out ≡ some k) × (code k ≡ 401) × (as_kratos e ≡ none))

  map_err-Mapped : (e : Err) → Mapped e (map_err P e)
  unfolding map_err
  map_err-Mapped e = elim (Option-cases (as_kratos e)) [
    | inl n ↦ rw (n, map_err) (inr (_, as_kratos-of_kratos _, code-new_error _ _ _, refl))
    | inr (k, s) ↦ rw (s, map_err) (inl (refl, cc))
  ]

  -- Outside the skipped operations an error of the validator, for a token that is not empty, stops
  -- the request, with any handler: it is passed on unchanged where it
  -- holds a kratos error, and any other becomes a kratos error of code 401.
  pub serve_refused :
      {W : Type 0} (o : Options P W) (validate : Validator P W) (h : Handler P W)
      (ctx : Context Any) (req : Any) (w w' : W) (claims : Option (Claims Any)) (e : Err)
      → skips P o.skip (operation_of P ctx) ≡ false
      → is_empty (token_of o ctx) ≡ false
      → validate ctx (token_of o ctx) w ≡ ((claims, some e), w')
      → (out : Err) × (serve P o validate h ctx req w ≡ (returned none (some out), w'))
        × Mapped e out
  unfolding serve admit
  serve_refused o validate h ctx req w w' claims e s t v =
      (map_err P e, rw (s, t, v), map_err-Mapped e)

  -- Outside the skipped operations a request with a token that the validator accepts reaches the handler, in a context from which
  -- the validator's claims can be read and that has the same transports and peer as before.
  pub serve_accepted :
      {W : Type 0} (o : Options P W) (validate : Validator P W) (h : Handler P W)
      (ctx : Context Any) (req : Any) (w w' : W) (c : Claims Any)
      → skips P o.skip (operation_of P ctx) ≡ false
      → is_empty (token_of o ctx) ≡ false
      → validate ctx (token_of o ctx) w ≡ ((some c, none), w')
      → (inner : Context Any) × (serve P o validate h ctx req w ≡ h inner req w')
        × (from_context P inner ≡ some c)
        × (inner.server ≡ ctx.server)
        × (inner.client ≡ ctx.client)
        × (inner.peer ≡ ctx.peer)
  unfolding serve admit
  serve_accepted o validate h ctx req w w' c s t v = (
    with_value P (auth_claims (some c)) ctx,
    rw (s, t, v),
    from_context-with_value c ctx,
    refl,
    refl,
    refl,
  )
