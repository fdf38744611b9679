-- ===== src/Middleware/Ratelimit.antt =====
-- pkg/middleware/ratelimit: ratelimit.go and peer.go. The map of limiters is part of the state; the
-- limiter of x/time/rate is a parameter, and `allow` of it reads the time of the call.
pub mod Trim
pub mod Quota
pub mod Key
pub mod Sample
pub mod Concurrent
mod Tests
use mathlib.Core.Option
use go_infrastructure.Prelude.{
  ℕ, zero, suc, ℤ, pos, Bool, true, false, Option, none, some, List, [], ◌∷◌, GoString, codes,
  is_empty, length, take, lookup, insert, ◌==◌, leb, ◌&&◌, ◌||◌, if◌then◌else◌,
}
use go_infrastructure.Kratos.Defs.{Platform}
use go_infrastructure.Middleware.Handler.{
  Context, Outcome, returned, Handler, Middleware, operation_of,
}

-- The scan of `indexComma`, with `none` for -1.
pub index_comma : GoString → Option ℕ
index_comma [] = none
index_comma (c ∷ s) = if c == b',' then some 0 else Option.map suc (index_comma s)

abbrev pub is_blank : ℕ → Bool
is_blank c = (c == b' ') || (c == b'\t')

-- The first loop of `trim`.
pub trim_front : GoString → GoString
trim_front [] = []
trim_front (c ∷ s) = let rest = trim_front s in if is_blank c then rest else c ∷ s

-- `s[len(s)-1]`, for a text that is not empty, and `s[:len(s)-1]`
abbrev last_byte : GoString → ℕ
last_byte [] = 0
last_byte (c ∷ []) = c
last_byte (c ∷ d ∷ s) = last_byte (d ∷ s)

abbrev without_last : GoString → GoString
without_last [] = []
without_last (c ∷ []) = []
without_last (c ∷ d ∷ s) = c ∷ without_last (d ∷ s)

-- The second loop of `trim`: each round drops a byte, so as many rounds as bytes are enough.
pub trim_back : ℕ → GoString → GoString
trim_back zero s = s
trim_back (suc n) s =
    let rest = trim_back n (without_last s) in
    if is_empty s then s else if is_blank (last_byte s) then rest else s

unfoldable pub trim : GoString → GoString
unfolding trim_front trim_back
trim s = let t = trim_front s in trim_back (length t) t

pub remote_peer : {Any : Type 0} → Context Any → Option GoString
remote_peer ctx = ctx.peer

-- What the package takes from x/time/rate and net: a limiter with its `Allow` at a time, and the
-- host of `net.SplitHostPort`, `none` for its error.
pub record Net : Type 1 where
  pub Limiter : Type 0
  pub new_limiter : ℤ → ℤ → Limiter
  pub allow_at : ℕ → Limiter → Bool × Limiter
  pub split_host : GoString → Option GoString

module _ (N : Net) where
  open N use {Limiter, new_limiter, allow_at, split_host}

  peer_key : Option GoString → GoString
  peer_key none = codes "global"
  peer_key (some p) = elim (split_host p) [ some host ↦ host | none ↦ p ]

  first_hop : GoString → GoString
  first_hop xff = elim (index_comma xff) [ some (suc i) ↦ trim (take (suc i) xff) | _ ↦ trim xff ]

  unfoldable pub default_key : {Any : Type 0} → Context Any → GoString → GoString
  unfolding peer_key first_hop remote_peer
  default_key ctx op = elim (ctx.server) [
    | none ↦ peer_key (remote_peer ctx)
    | some tr ↦
        if is_empty (tr.get (codes "x-forwarded-for"))
        then if is_empty (tr.get (codes "x-real-ip"))
          then peer_key (remote_peer ctx)
          else tr.get (codes "x-real-ip")
        else first_hop (tr.get (codes "x-forwarded-for"))
  ]

  pub record Bucket : Type 0 where
    pub limiters : List (GoString × Limiter)
    pub rps : ℤ
    pub burst : ℤ

  unfoldable pub new_bucket : ℤ → ℤ → Bucket
  new_bucket rps burst = record { limiters = []; rps = rps; burst = burst }

  -- The limiter of a key, made at the first use of the key.
  limiter_for : Bucket → GoString → Limiter
  limiter_for b key = elim (lookup key b.limiters) [ some l ↦ l | none ↦ new_limiter b.rps b.burst ]

  unfoldable pub allow : ℕ → GoString → Bucket → Bool × Bucket
  unfolding limiter_for
  allow now key b =
      let (allowed, l) = allow_at now (limiter_for b key) in
      (allowed, record b { limiters = insert key l b.limiters })

  module _ (P : Platform) where
    open P use {Any, KratosError, of_kratos, new_error}

    pub record Options : Type 0 where
      pub rps : ℤ
      pub burst : ℤ
      pub key : Option (Context Any → GoString → GoString)
      pub skip : Option (GoString → Bool)

    unfoldable pub with_rate : ℤ → ℤ → Options → Options
    with_rate rps burst o = record o { rps = rps; burst = burst }

    pub with_key : (Context Any → GoString → GoString) → Options → Options
    with_key f o = record o { key = some f }

    pub with_skip : (GoString → Bool) → Options → Options
    with_skip f o = record o { skip = some f }

    abbrev pub err_too_many_requests : KratosError
    err_too_many_requests = new_error 429 (codes "RATE_LIMITED") (codes "too many requests")

    abbrev pub skips : Option (GoString → Bool) → GoString → Bool
    skips none op = false
    skips (some f) op = f op

    abbrev pub key_of : Options → Context Any → GoString → GoString
    key_of o ctx op = elim (o.key) [ some f ↦ f ctx op | none ↦ default_key ctx op ]

    -- Where a state of the world keeps the bucket, and the clock that `Allow` reads.
    pub record Holder (S : Type 0) : Type 0 where
      pub bucket : S → Bucket
      pub set_bucket : Bucket → S → S
      pub now : S → ℕ

    pub serve : {S : Type 0} → Holder S → Options → Middleware P S
    serve holder o h ctx req s =
        let op = operation_of P ctx in
        let (allowed, b') = allow (holder.now s) (key_of o ctx op) (holder.bucket s) in
        if skips o.skip op
        then h ctx req s
        else if allowed
        then h ctx req (holder.set_bucket b' s)
        else (returned none (some (of_kratos err_too_many_requests)), holder.set_bucket b' s)

    abbrev pub defaults : Options
    defaults = record { rps = pos 100; burst = pos 200; key = none; skip = none }

    unfoldable pub apply : List (Options → Options) → Options → Options
    apply [] o = o
    apply (opt ∷ opts) o = apply opts (opt o)

    -- `Server`: the bucket that a call of it makes, and the middleware over that bucket.
    unfoldable pub server :
        {S : Type 0} → Holder S → List (Options → Options) → Bucket × Middleware P S
    unfolding apply new_bucket
    server holder opts = let o = apply opts defaults in (new_bucket o.rps o.burst, serve holder o)
