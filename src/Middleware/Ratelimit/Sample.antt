-- ===== src/Middleware/Ratelimit/Sample.antt =====
-- A limiter that never refills, for the tests.
use go_infrastructure.Prelude.{
  ℕ, zero, suc, ◌+◌, ◌*◌, ◌≤◌, ◌≡◌, refl, arith, Bool, true, false, none, pos_part, if◌then◌else◌,
}
use go_infrastructure.Middleware.Ratelimit.{Net}
use go_infrastructure.Middleware.Ratelimit.Quota.{token, IsTokenBucket}

pub record Tokens : Type 0 where
  pub rate : ℕ
  pub left : ℕ

abbrev pub take_token : ℕ → Tokens → Bool × Tokens
take_token zero l = (false, l)
take_token (suc n) l = (true, record l { left = n })

abbrev pub draining : Net
draining = record {
  Limiter = Tokens;
  new_limiter = λ r b. record { rate = pos_part r; left = pos_part b };
  allow_at = λ t l. take_token l.left l;
  split_host = λ p. none;
}

spend_token :
    (n : ℕ) (l : Tokens)
    → l.left ≡ n
    → ((take_token n l).1.left * token + (if (take_token n l).0 then token else 0) ≤ l.left * token)
      × ((take_token n l).1.rate ≡ l.rate)
spend_token zero l e = (omega arith, refl)
spend_token (suc n) l e = (omega arith, refl)

pub draining-IsTokenBucket : IsTokenBucket draining (λ l. l.rate) (λ t l. l.left * token)
draining-IsTokenBucket = record {
  rate-new = λ r b. refl;
  credit-new = λ t r b. omega arith;
  refill = λ t d l. omega arith;
  rate-allow = λ t l. (spend_token l.left l refl).1;
  spend = λ t l. (spend_token l.left l refl).0;
}
