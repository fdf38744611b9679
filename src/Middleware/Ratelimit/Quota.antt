-- ===== src/Middleware/Ratelimit/Quota.antt =====
-- What a bucket admits over time, under the law of a token bucket for each limiter.
use mathlib.Core.Path.{subst}
use go_infrastructure.Prelude.{
  ℕ, ◌+◌, ◌*◌, ◌≤◌, ◌≡◌, refl, sym, ap, arith, Bool, false, Bool-cases, inl, inr, Option, none,
  some, Option-cases, List, [], ◌∷◌, pos, GoString, eq_str, eq_str_iff, eq_str_refl, lookup,
  lookup-insert, ◌&&◌, if◌then◌else◌,
}
use go_infrastructure.Kratos.Defs.{Platform}
use go_infrastructure.Middleware.Handler.{Context, returned, Handler, operation_of}
use go_infrastructure.Middleware.Ratelimit.{
  Net, Bucket, new_bucket, allow, limiter_for, Options, skips, key_of, serve, Holder,
  err_too_many_requests,
}

-- Credit is counted in 1 / 10^9 tokens, time in nanoseconds, so that a rate of r tokens in a second
-- is r units of credit in a nanosecond.
abbrev pub token : ℕ
token = 1_000_000_000

-- The law of a token bucket, as x/time/rate documents it: it holds at most `burst` tokens at first,
-- gains at most `rate` tokens in a second, and an event that it allows takes one out.
pub record IsTokenBucket (N : Net) (rate : N.Limiter → ℕ) (credit : ℕ → N.Limiter → ℕ)
    : Type 0 where
  pub rate-new : (r b : ℕ) → rate (N.new_limiter (pos r) (pos b)) ≡ r
  pub credit-new : (t r b : ℕ) → credit t (N.new_limiter (pos r) (pos b)) ≤ b * token
  pub refill : (t d : ℕ) (l : N.Limiter) → credit (t + d) l ≤ credit t l + rate l * d
  pub rate-allow : (t : ℕ) (l : N.Limiter) → rate (N.allow_at t l).1 ≡ rate l
  pub spend :
      (t : ℕ) (l : N.Limiter)
      → credit t (N.allow_at t l).1 + (if (N.allow_at t l).0 then token else 0) ≤ credit t l

module _ (N : Net) where
  -- How often a sequence of requests, each at a time behind the one before it, is admitted under
  -- the key `k`; and the time that the sequence takes.
  unfoldable pub admitted : GoString → ℕ → List (ℕ × GoString) → Bucket N → ℕ
  admitted k t [] b = 0
  admitted k t ((d, key) ∷ rs) b =
      let (ok, b') = allow N (t + d) key b in
      (if ok && eq_str key k then 1 else 0) + admitted k (t + d) rs b'

  unfoldable pub elapsed : List (ℕ × GoString) → ℕ
  elapsed [] = 0
  elapsed ((d, key) ∷ rs) = d + elapsed rs

module _ (N : Net) (rate : N.Limiter → ℕ) (credit : ℕ → N.Limiter → ℕ)
    (law : IsTokenBucket N rate credit) (r burst : ℕ) where
  -- The credit that a key has at a time: that of its limiter, or a full bucket.
  available : ℕ → Option N.Limiter → ℕ
  available t none = burst * token
  available t (some l) = credit t l

  record IsConfigured (b : Bucket N) (k : GoString) : Type 0 where
    rps : b.rps ≡ pos r
    size : b.burst ≡ pos burst
    rated : (l : N.Limiter) → lookup k b.limiters ≡ some l → rate l ≡ r

  limiter_for-credit :
      (k : GoString) (t d : ℕ) (b : Bucket N)
      → IsConfigured b k
      → (credit (t + d) (limiter_for N b k) ≤ available t (lookup k b.limiters) + r * d)
        × (rate (limiter_for N b k) ≡ r)
  unfolding limiter_for available
  limiter_for-credit k t d b c = elim (Option-cases (lookup k b.limiters)) [
    | inl n ↦
        rw (n, limiter_for, available, c.rps, c.size)
          (omega (arith, law.credit-new (t + d) r burst), law.rate-new r burst)
    | inr (l, s) ↦
        rw (s, limiter_for, available)
          (omega (arith, law.refill t d l, ap (λ (x : ℕ). x * d) (c.rated l s)), c.rated l s)
  ]

  allow-lookup :
      (k key : GoString) (t : ℕ) (b : Bucket N)
      → lookup k (allow N t key b).1.limiters ≡ (
          if eq_str key k then some (N.allow_at t (limiter_for N b key)).1 else lookup k b.limiters)
  unfolding allow
  allow-lookup k key t b = lookup-insert key k _ b.limiters

  allow-verdict :
      (key : GoString) (t : ℕ) (b : Bucket N)
      → (allow N t key b).0 ≡ (N.allow_at t (limiter_for N b key)).0
  unfolding allow
  allow-verdict key t b = refl

  available_grows :
      (k : GoString) (t d : ℕ) (b : Bucket N)
      → IsConfigured b k
      → available (t + d) (lookup k b.limiters) ≤ available t (lookup k b.limiters) + r * d
  unfolding available
  available_grows k t d b c = elim (Option-cases (lookup k b.limiters)) [
    | inl n ↦ rw (n, available) (omega arith)
    | inr (l, s) ↦
        rw (s, available) (omega (arith, law.refill t d l, ap (λ (x : ℕ). x * d) (c.rated l s)))
  ]

  -- What one request under `key` leaves to the key `k`, with the token that it may take.
  abbrev Leaves : GoString → GoString → ℕ → ℕ → Bucket N → Type 0
  Leaves k key t d b =
      available (t + d) (lookup k (allow N (t + d) key b).1.limiters)
        + (if (allow N (t + d) key b).0 && eq_str key k then token else 0)
      ≤ available t (lookup k b.limiters) + r * d

  allow-credit_self : (k : GoString) (t d : ℕ) (b : Bucket N) → IsConfigured b k → Leaves k k t d b
  unfolding available
  allow-credit_self k t d b c =
      rw (allow-lookup k k (t + d) b, allow-verdict k (t + d) b, eq_str_refl k, available)
        (ground (arith, law.spend (t + d) (limiter_for N b k), (limiter_for-credit k t d b c).0))

  allow-credit : (k key : GoString) (t d : ℕ) (b : Bucket N) → IsConfigured b k → Leaves k key t d b
  allow-credit k key t d b c = elim (Bool-cases (eq_str key k)) [
    | inl same ↦
        subst (λ x. Leaves k x t d b) (sym ((eq_str_iff key k).0 same))
          (allow-credit_self k t d b c)
    | inr other ↦
        rw (allow-lookup k key (t + d) b, other) (ground (arith, available_grows k t d b c))
  ]

  rated_self :
      (k : GoString) (t : ℕ) (b : Bucket N)
      → IsConfigured b k
      → (l : N.Limiter) → lookup k (allow N t k b).1.limiters ≡ some l
      → rate l ≡ r
  rated_self k t b c l s = ground (
    arith,
    allow-lookup k k t b,
    eq_str_refl k,
    law.rate-allow t (limiter_for N b k),
    (limiter_for-credit k t 0 b c).1,
  )

  allow-IsConfigured :
      (k key : GoString) (t : ℕ) (b : Bucket N)
      → IsConfigured b k
      → IsConfigured (allow N t key b).1 k
  unfolding allow
  allow-IsConfigured k key t b c = record {
    rps = c.rps;
    size = c.size;
    rated = λ l s. elim (Bool-cases (eq_str key k)) [
      | inl same ↦
          rated_self k t b c l (
            subst (λ x. lookup k (allow N t x b).1.limiters ≡ some l) ((eq_str_iff key k).0 same) s)
      | inr other ↦ c.rated l (rw (allow-lookup k key t b, other) at s)
    ];
  }

  quota :
      (k : GoString) (t : ℕ) (rs : List (ℕ × GoString)) (b : Bucket N)
      → IsConfigured b k
      → admitted N k t rs b * token ≤ available t (lookup k b.limiters) + r * elapsed N rs
  unfolding admitted elapsed
  quota k t [] b c = omega arith
  quota k t ((d, key) ∷ rs) b c =
      let one = allow-credit k key t d b c in
      let rest =
        quota k (t + d) rs (allow N (t + d) key b).1 (allow-IsConfigured k key (t + d) b c) in
      ground arith

  -- Requests that arrive in any order and under any keys, at times that do not go back, get at most
  -- `burst + r * T` of them admitted under one key in a time T from a new bucket (counted in
  -- 1 / 10^9 tokens, with T in nanoseconds), when each limiter is a token bucket.
  pub admitted-le :
      (k : GoString) (t : ℕ) (rs : List (ℕ × GoString))
      → admitted N k t rs (new_bucket N (pos r) (pos burst)) * token
        ≤ burst * token + r * elapsed N rs
  unfolding new_bucket lookup available
  admitted-le k t rs =
      quota k t rs (new_bucket N (pos r) (pos burst))
        (record { rps = refl; size = refl; rated = λ l s. cc })

module _ (N : Net) (P : Platform) where
  open P use {Any, of_kratos, code, code-new_error}

  -- Outside the skipped operations a request that finds its bucket empty is answered, with any
  -- handler, by a kratos error of code 429, and only the bucket is set. One that finds a token is
  -- answered as the handler answers it, in a world where only the bucket is set.
  pub serve_limited :
      {S : Type 0} (holder : Holder N P S) (o : Options N P) (h : Handler P S) (ctx : Context Any)
      (req : Any) (s : S) (b' : Bucket N) (ok : Bool)
      → skips N P o.skip (operation_of P ctx) ≡ false
      → allow N (holder.now s) (key_of N P o ctx (operation_of P ctx)) (holder.bucket s) ≡ (ok, b')
      → (serve N P holder o h ctx req s ≡ (
          if ok then h ctx req (holder.set_bucket b' s) else (
            returned none (some (of_kratos (err_too_many_requests N P))),
            holder.set_bucket b' s,
          )))
        × (code (err_too_many_requests N P) ≡ 429)
  unfolding serve
  serve_limited holder o h ctx req s b' ok e a = (rw (e, a), code-new_error _ _ _)
