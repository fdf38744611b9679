-- ===== src/Middleware/Ratelimit/Tests.antt =====
-- The rate limiter's theorems at a limiter that never refills.
use go_infrastructure.Prelude.{
  ℕ, ◌+◌, ◌*◌, ◌≤◌, ◌≡◌, refl, arith, false, none, some, List, [], ◌∷◌, pos, GoString, codes,
  eq_str, lookup, insert, if◌then◌else◌, trim_both,
}
use go_infrastructure.Kratos.Sample.{sample, SampleError}
use go_infrastructure.Middleware.Handler.{Context, Transport, returned, Handler}
use go_infrastructure.Middleware.Ratelimit.{
  Bucket, new_bucket, allow, Options, Holder, serve, err_too_many_requests, is_blank, trim,
  default_key,
}
use go_infrastructure.Middleware.Ratelimit.Sample.{draining, draining-IsTokenBucket}
use go_infrastructure.Middleware.Ratelimit.Trim.{trim-trim_both}
use go_infrastructure.Middleware.Ratelimit.Key.{default_key-first_hop}
use go_infrastructure.Middleware.Ratelimit.Quota.{
  token, admitted, elapsed, admitted-le, serve_limited,
}

abbrev two_clients : List (ℕ × GoString)
two_clients = (5, codes "a") ∷ (1, codes "b") ∷ (1, codes "a") ∷ (2, codes "a") ∷ []

admitted-le_run :
    admitted draining (codes "a") 0 two_clients (new_bucket draining (pos 0) (pos 2)) * token
    ≤ 2 * token + 0 * elapsed draining two_clients
admitted-le_run =
    admitted-le draining (λ l. l.rate) (λ t l. l.left * token) draining-IsTokenBucket 0 2
      (codes "a") 0 two_clients

admitted_run : admitted draining (codes "a") 0 two_clients (new_bucket draining (pos 0) (pos 2)) ≡ 2
unfolding admitted new_bucket allow lookup insert eq_str
admitted_run = refl

trim-trim_both_example : trim (codes " 10.0.0.7\t") ≡ trim_both is_blank (codes " 10.0.0.7\t")
trim-trim_both_example = trim-trim_both (codes " 10.0.0.7\t")

abbrev forwarded : Transport
forwarded = record {
  kind = codes "http";
  operation = codes "/";
  get = λ k.
      if eq_str k (codes "x-forwarded-for") then codes " 10.0.0.7 , 10.0.0.1" else codes "8.8.8.8";
}

abbrev behind_proxy : Context ℕ
behind_proxy = record {
  server = some forwarded;
  client = none;
  span = none;
  peer = none;
  values = [];
}

default_key-first_hop_run : default_key draining behind_proxy [] ≡ codes "10.0.0.7"
unfolding eq_str
default_key-first_hop_run =
    default_key-first_hop draining behind_proxy [] forwarded (codes " ") (codes "0.0.0.7")
      (codes " ") (codes " 10.0.0.1") b'1' refl refl (refl, tt) (refl, tt) refl refl (ground arith)

abbrev fixed_key : Options draining sample
fixed_key = record { rps = pos 0; burst = pos 0; key = some (λ ctx op. codes "k"); skip = none }

hello : Handler sample (Bucket draining × ℕ)
hello ctx req w = (returned (some req) none, w)

abbrev no_tokens : Bucket draining
no_tokens = record {
  limiters = (codes "k", record { rate = 0; left = 0 }) ∷ [];
  rps = pos 0;
  burst = pos 0;
}

abbrev paired : Holder draining sample (Bucket draining × ℕ)
paired = record { bucket = λ s. s.0; set_bucket = λ b s. (b, s.1); now = λ s. s.1 }

serve_limited_run :
    (serve draining sample paired fixed_key hello behind_proxy 7
        (new_bucket draining (pos 0) (pos 0), 3)
      ≡ (
        returned none (some (SampleError.kratos (err_too_many_requests draining sample))),
        (no_tokens, 3),
      ))
    × ◌≡◌ {A = ℕ} 429 429
unfolding new_bucket allow lookup insert
serve_limited_run =
    serve_limited draining sample paired fixed_key hello behind_proxy 7
      (new_bucket draining (pos 0) (pos 0), 3) no_tokens false refl refl
