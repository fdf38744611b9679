-- ===== src/Services/Beta/Guards.antt =====
-- What the auth and rate limit middlewares of kris-beta do.
use go_infrastructure.Prelude.{
  ◌≡◌, refl, ap, ◌∙◌, inl, inr, Bool, true, false, Bool-cases, none, some, [], ◌∷◌, ◌++◌, GoString,
  codes, has_prefix, is_empty, if◌then◌else◌,
}
use go_infrastructure.Kratos.Defs.{Platform}
use go_infrastructure.Middleware.Handler.{Context, Handler, returned, operation_of}
use go_infrastructure.Middleware.World.{World}
use go_infrastructure.Middleware.Auth
use go_infrastructure.Middleware.Auth.Access.{
  token_of, serve_no_token, serve_refused, serve_accepted,
}
use go_infrastructure.Middleware.Ratelimit.{Net, Bucket, default_key, allow, err_too_many_requests}
use go_infrastructure.Middleware.Ratelimit.Key.{default_key_same}
use go_infrastructure.Middleware.Ratelimit.Quota.{serve_limited}
use go_infrastructure.Services.Beta.{State, holder, validator, is_public}
use go_infrastructure.Services.Beta.Routes.{auth_options, limit_options, auth, limit}

is_empty-nil : (s : GoString) → is_empty s ≡ true → s ≡ []
is_empty-nil [] e = refl
is_empty-nil (c ∷ s) e = cc

module _ (N : Net) (P : Platform) where
  open P use {Any, Err, of_kratos, as_kratos, as_kratos-of_kratos, code}

  abbrev pub bearer : Context Any → GoString
  bearer ctx = token_of P (auth_options N P) ctx

  pub operation_same :
      (c d : Context Any) → c.server ≡ d.server → operation_of P c ≡ operation_of P d
  operation_same c d e = ap (λ s. elim s [ none ↦ [] | some tr ↦ tr.operation ]) e

  pub bearer_same : (c d : Context Any) → c.server ≡ d.server → bearer c ≡ bearer d
  bearer_same c d e = rw e

  -- What the bucket says where only the values and the span of the context have changed.
  pub allow_same :
      (c d : Context Any) (w w1 : World (State N)) (b' : Bucket N) (ok : Bool)
      → c.server ≡ d.server
      → c.peer ≡ d.peer
      → w1.clock ≡ w.clock
      → w1.rest ≡ w.rest
      → allow N w.clock (default_key N d (operation_of P d)) w.rest.bucket ≡ (ok, b')
      → allow N w1.clock (default_key N c (operation_of P c)) w1.rest.bucket ≡ (ok, b')
  allow_same c d w w1 b' ok e f clock rest a =
      rw (operation_same c d e, default_key_same N (operation_of P d) c d e f, clock, rest) a

  pub auth-refuses :
      (g : Handler P (World (State N))) (ctx : Context Any) (req : Any) (w : World (State N))
      → is_public N P (operation_of P ctx) ≡ false
      → has_prefix (bearer ctx) (codes "demo-") ≡ false
      → auth N P g ctx req w ≡ (returned none (some (of_kratos (Auth.err_unauthorized P))), w)
  unfolding validator
  auth-refuses g ctx req w s h = elim (Bool-cases (is_empty (bearer ctx))) [
    | inl e ↦
        (serve_no_token P (auth_options N P) (validator N P) g ctx req w s
          (is_empty-nil (bearer ctx) e)).0
    | inr e ↦
        let (out, a, m) =
          serve_refused P (auth_options N P) (validator N P) g ctx req w w none
            (of_kratos (Auth.err_unauthorized P)) s e (rw h) in
        elim m [
          | inl (same, k) ↦ a ∙ rw same
          | inr (k, o, c, n) ↦ absurd (cc (n, as_kratos-of_kratos (Auth.err_unauthorized P)))
        ]
  ]

  pub auth-accepts :
      (g : Handler P (World (State N))) (ctx : Context Any) (req : Any) (w : World (State N))
      (name : GoString)
      → is_public N P (operation_of P ctx) ≡ false
      → bearer ctx ≡ codes "demo-" ++ name
      → (inner : Context Any) × (auth N P g ctx req w ≡ g inner req w)
        × (Auth.from_context P inner ≡ some (record { subject = name; scopes = []; raw = [] }))
        × (inner.server ≡ ctx.server)
        × (inner.peer ≡ ctx.peer)
  unfolding validator has_prefix
  auth-accepts g ctx req w name s t =
      let (inner, a, c, server, client, peer) =
        serve_accepted P (auth_options N P) (validator N P) g ctx req w w _ s (rw t) (rw t) in
      (inner, a, c, server, peer)

  pub limit-allows :
      (g : Handler P (World (State N))) (ctx : Context Any) (req : Any) (w : World (State N))
      (b' : Bucket N) (ok : Bool)
      → allow N w.clock (default_key N ctx (operation_of P ctx)) w.rest.bucket ≡ (ok, b')
      → limit N P g ctx req w ≡ (
          if ok then g ctx req (record w { rest = record (w.rest) { bucket = b' } }) else (
            returned none (some (of_kratos (err_too_many_requests N P))),
            record w { rest = record (w.rest) { bucket = b' } },
          ))
  limit-allows g ctx req w b' ok e =
      (serve_limited N P (holder N P) (limit_options N P) g ctx req w b' ok refl e).0
