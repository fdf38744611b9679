-- ===== src/Middleware/Auth/Tests.antt =====
-- The auth theorems at the demo validator's kind of request.
use go_infrastructure.Prelude.{
  ℕ, suc, ◌≡◌, refl, none, some, [], GoString, codes, has_prefix, drop, eq_str, equal_fold,
  trim_space, if◌then◌else◌,
}
use go_infrastructure.Kratos.Sample.{sample, SampleError, plain}
use go_infrastructure.Middleware.Handler.{Claims, Context, returned, panicked, Handler}
use go_infrastructure.Middleware.Auth.{
  extract_token, Options, Validator, serve, server, from_context, err_unauthorized, defaults,
  with_validator,
}
use go_infrastructure.Middleware.Auth.Token.{extract_token-append}
use go_infrastructure.Middleware.Auth.Access.{
  Mapped, serve_authenticated, serve_no_token, serve_refused, serve_accepted,
}

-- `Authorization: bearer  demo-kris`
extract_token-append_example :
    extract_token (codes "bearer  demo-kris") (codes "Bearer ") ≡ codes "demo-kris"
unfolding equal_fold eq_str
extract_token-append_example =
    extract_token-append (codes "bearer ") (codes "Bearer ") (codes " ") (codes "demo-kris") []
      (λ e. cc) refl (λ e. cc) refl refl (refl, tt) tt

extract_token_run : extract_token (codes "Bearer demo-kris ") (codes "Bearer ") ≡ codes "demo-kris"
unfolding extract_token trim_space equal_fold
extract_token_run = refl

abbrev subject_of : GoString → Claims ℕ
subject_of s = record { subject = s; scopes = []; raw = [] }

-- Accepts any token that starts with "demo-"; the world counts the calls.
abbrev demo : Validator sample ℕ
demo ctx token w =
    if has_prefix token (codes "demo-")
    then ((some (subject_of (drop 5 token)), none), suc w)
    else ((none, some plain), suc w)

abbrev options : Options sample ℕ
options = with_validator sample demo (defaults sample)

abbrev asking : GoString → Context ℕ
asking header = record {
  server = some (record {
    kind = codes "http";
    operation = codes "/whoami";
    get = λ k. if eq_str k (codes "authorization") then header else [];
  });
  client = none;
  span = none;
  peer = none;
  values = [];
}

hello : Handler sample ℕ
hello ctx req w = (returned (some req) none, w)

auth_code : Unit {0}
unfolding hello serve server from_context extract_token trim_space equal_fold eq_str has_prefix
    with_validator
auth_code = tt

-- Fails where there are no claims in the context.
picky : Handler sample ℕ
picky ctx req w = elim (from_context sample ctx) [
  | none ↦ (panicked 0, w)
  | some c ↦ (returned (some req) none, w)
]

picky-hello :
    (inner : Context ℕ) (req w : ℕ) (c : Claims ℕ)
    → from_context sample inner ≡ some c
    → hello inner req w ≡ picky inner req w
unfolding hello picky
picky-hello inner req w c f = rw (f, picky)

serve_authenticated_example :
    serve sample options demo hello (asking (codes "Bearer x")) 7 0
    ≡ serve sample options demo picky (asking (codes "Bearer x")) 7 0
unfolding auth_code
serve_authenticated_example =
    serve_authenticated sample options demo hello picky (asking (codes "Bearer x")) 7 0 refl
      (λ c w' e inner f. picky-hello inner 7 w' c f)

serve_no_token_run :
    (serve sample options demo hello (asking []) 7 0
      ≡ (returned none (some (SampleError.kratos (err_unauthorized sample))), 0))
    × ◌≡◌ {A = ℕ} 401 401
unfolding auth_code
serve_no_token_run = serve_no_token sample options demo hello (asking []) 7 0 refl refl

serve_refused_run :
    (out : SampleError) × (serve sample options demo hello (asking (codes "Bearer x")) 7 0
      ≡ (returned none (some out), 1))
    × Mapped sample plain out
unfolding auth_code
serve_refused_run =
    serve_refused sample options demo hello (asking (codes "Bearer x")) 7 0 1 none plain refl refl
      refl

serve_accepted_run :
    (inner : Context ℕ) × (serve sample options demo hello (asking (codes "Bearer demo-kris")) 7 0
      ≡ hello inner 7 1)
    × (from_context sample inner ≡ some (subject_of (codes "kris")))
    × (inner.server ≡ (asking (codes "Bearer demo-kris")).server)
    × (inner.client ≡ none)
    × (inner.peer ≡ (asking (codes "Bearer demo-kris")).peer)
unfolding auth_code
serve_accepted_run =
    serve_accepted sample options demo hello (asking (codes "Bearer demo-kris")) 7 0 1
      (subject_of (codes "kris")) refl refl refl
