-- ===== src/Services/Beta/Counted.antt =====
-- How kris-beta counts the answers of its guards.
use go_infrastructure.Prelude.{
  ℕ, ◌+◌, ◌≡◌, refl, arith, Bool, true, false, ◌&&◌, some, List, [], ◌∷◌, ◌++◌, GoString, codes,
  eq_str, has_prefix, if◌then◌else◌,
}
use go_infrastructure.Kratos.Defs.{Platform}
use go_infrastructure.Middleware.Auth
use go_infrastructure.Middleware.Observe.{metric_code}
use go_infrastructure.Middleware.Ratelimit.{Net, err_too_many_requests}

pub has_prefix-append :
    (s p : GoString) → has_prefix s p ≡ true → (name : GoString) × (s ≡ p ++ name)
unfolding has_prefix
has_prefix-append s [] e = (s, refl)
has_prefix-append [] (c ∷ p) e = absurd (cc e)
has_prefix-append (b ∷ s) (c ∷ p) e =
    let (name, rest) = has_prefix-append s p (ground arith) in
    let same : b ≡ c = ground arith in (name, cc (same, rest))

-- The count of a request and of those behind it.
pub sum_same :
    (a b c : Bool) (m n : ℕ)
    → a ≡ b
    → m ≡ n
    → (if a && c then 1 else 0) + m ≡ (if b && c then 1 else 0) + n
sum_same a b c m n e f = rw (e, f)

pub none_more : (n : ℕ) → 0 + n ≡ n
none_more n = omega arith

-- Whether the newest request was counted as served without an error.
abbrev pub counted_ok : List (GoString × GoString × GoString) → Bool
counted_ok [] = false
counted_ok ((kind, op, code) ∷ rs) = eq_str code (codes "ok")

module _ (P : Platform) where
  open P use {of_kratos, as_kratos-of_kratos, reason-new_error}

  pub too_many-metric_code :
      (N : Net)
      → eq_str (metric_code P (some (of_kratos (err_too_many_requests N P)))) (codes "ok") ≡ false
  unfolding metric_code eq_str
  too_many-metric_code N =
      rw
        (
          metric_code,
          as_kratos-of_kratos (err_too_many_requests N P),
          reason-new_error 429 (codes "RATE_LIMITED") (codes "too many requests"),
        )
        refl

  pub unauthorized-metric_code :
      eq_str (metric_code P (some (of_kratos (Auth.err_unauthorized P)))) (codes "ok") ≡ false
  unfolding metric_code eq_str
  unauthorized-metric_code =
      rw
        (
          metric_code,
          as_kratos-of_kratos (Auth.err_unauthorized P),
          reason-new_error 401 (codes "UNAUTHORIZED") (codes "missing or invalid credentials"),
        )
        refl
