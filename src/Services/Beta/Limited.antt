-- ===== src/Services/Beta/Limited.antt =====
-- How many requests to /whoami a client of kris-beta gets through, over any sequence of requests.
use go_infrastructure.Prelude.{
  ℕ, ◌+◌, ◌*◌, ◌≤◌, ◌≡◌, refl, ap, ◌∙◌, arith, Bool, true, false, Bool-cases, inl, inr, ◌&&◌, none,
  List, [], ◌∷◌, All, pos, GoString, codes, eq_str, has_prefix, if◌then◌else◌,
}
use go_infrastructure.Kratos.Defs.{Platform}
use go_infrastructure.Middleware.Handler.{Context, Middleware, operation_of}
use go_infrastructure.Middleware.World.{World}
use go_infrastructure.Middleware.Auth
use go_infrastructure.Middleware.Cors
use go_infrastructure.Middleware.Observe.{metric_code}
use go_infrastructure.Middleware.Ratelimit.{
  Net, Bucket, new_bucket, default_key, allow, err_too_many_requests,
}
use go_infrastructure.Middleware.Ratelimit.Quota.{
  token, IsTokenBucket, admitted, elapsed, admitted-le,
}
use go_infrastructure.Server.Chain.{Kratos, ServerOption, RawEnd}
use go_infrastructure.Server.Listen.{Transports, Raw}
use go_infrastructure.Services.Beta.{State, whoami}
use go_infrastructure.Services.Beta.Routes.{Serves, guarded, new_hs-Serves}
use go_infrastructure.Services.Beta.Guards.{bearer}
use go_infrastructure.Services.Beta.Counted.{
  has_prefix-append, sum_same, none_more, counted_ok, too_many-metric_code,
  unauthorized-metric_code,
}
use go_infrastructure.Services.Beta.Asked.{unauthorized_at, hello_at}

module _ (N : Net) (P : Platform) (K : Kratos P (World (State N)))
    (encode_error : P.Err → World (State N) → World (State N)) {Tls : Type 0}
    (T : Transports
      (ServerOption Tls Cors.Options (Middleware P (World (State N))))
      (Raw P K encode_error))
    (boxed : Context P.Any → P.Any) (http_addr : GoString) where
  open P use {Any, Err, of_kratos}

  -- A request: the time behind the one before it, and its context.
  abbrev pub Visits : Type 0
  Visits = List (ℕ × Context Any)

  -- A request finds a response of its own, at its time.
  abbrev arrives : ℕ → World (State N) → World (State N)
  arrives t w = record w {
    clock = t;
    rest = record (w.rest) { out = record { header = []; status = none; body = [] } };
  }

  -- The world after a request to /whoami at a time.
  abbrev visited : ℕ → Context Any → World (State N) → World (State N)
  visited t ctx w =
      (guarded N P K encode_error T boxed http_addr (whoami N P K encode_error) ctx (arrives t w)).1

  abbrev key_of : Context Any → GoString
  key_of ctx = default_key N ctx (operation_of P ctx)

  -- How many requests of the key `k` are counted as served without an error.
  pub passed : GoString → ℕ → Visits → World (State N) → ℕ
  passed k t [] w = 0
  passed k t ((d, ctx) ∷ vs) w =
      let w' = visited (t + d) ctx w in
      (if counted_ok w'.requests && eq_str (key_of ctx) k then 1 else 0) + passed k (t + d) vs w'

  -- The time that the requests take.
  abbrev pub lasting : Visits → ℕ
  lasting [] = 0
  lasting ((d, ctx) ∷ vs) = d + lasting vs

  -- The requests that get to the rate limiter, each behind the one before it.
  limited : ℕ → Visits → List (ℕ × GoString)
  limited c [] = []
  limited c ((d, ctx) ∷ vs) =
      if has_prefix (bearer N P ctx) (codes "demo-")
      then (c + d, key_of ctx) ∷ limited 0 vs
      else limited (c + d) vs

  elapsed-limited : (c : ℕ) (vs : Visits) → elapsed N (limited c vs) ≤ c + lasting vs
  unfolding elapsed limited
  elapsed-limited c [] = omega arith
  elapsed-limited c ((d, ctx) ∷ vs) =
      ground (arith, elapsed-limited 0 vs, elapsed-limited (c + d) vs)

  -- The response that encodes an error leaves the bucket and the counts.
  abbrev pub Encodes : Type 0
  Encodes =
      (e : Err) (w : World (State N))
      → ((encode_error e w).rest.bucket ≡ w.rest.bucket)
        × ((encode_error e w).requests ≡ w.requests)

  abbrev pub IsWhoami : ℕ × Context Any → Type 0
  IsWhoami v = operation_of P v.1 ≡ codes "/whoami"

  module _ (encodes : Encodes) where
    visited_ok :
        (t : ℕ) (ctx : Context Any) (w : World (State N)) (b' : Bucket N) (ok : Bool)
        → operation_of P ctx ≡ codes "/whoami"
        → has_prefix (bearer N P ctx) (codes "demo-") ≡ true
        → allow N t (key_of ctx) w.rest.bucket ≡ (ok, b')
        → ((visited t ctx w).rest.bucket ≡ b') × (counted_ok (visited t ctx w).requests ≡ ok)
    unfolding metric_code eq_str
    visited_ok t ctx w b' true o h a =
        let (name, spells) = has_prefix-append (bearer N P ctx) (codes "demo-") h in
        let (w3, e, rs, r, hd) =
          hello_at N P K encode_error T boxed http_addr ctx (arrives t w) name b' true o spells a in
        let at = ap (λ (r : RawEnd P × World (State N)). r.1) e in
        (
          ap (λ (v : World (State N)). v.rest.bucket) at ∙ ap (λ (v : State N). v.bucket) rs,
          ap (λ (v : World (State N)). counted_ok v.requests) at ∙ ap counted_ok r,
        )
    visited_ok t ctx w b' false o h a =
        let (name, spells) = has_prefix-append (bearer N P ctx) (codes "demo-") h in
        let (w3, e, rs, r, hd) =
          hello_at N P K encode_error T boxed http_addr ctx (arrives t w) name b' false o spells
            a in
        let at = ap (λ (r : RawEnd P × World (State N)). r.1) e in
        let (bucket, requests) = encodes (of_kratos (err_too_many_requests N P)) w3 in
        (
          ap (λ (v : World (State N)). v.rest.bucket) at
              ∙ bucket
              ∙ ap (λ (v : State N). v.bucket) rs,
          ap (λ (v : World (State N)). counted_ok v.requests) at
              ∙ ap counted_ok (requests ∙ r)
              ∙ too_many-metric_code P N,
        )

    visited_refused :
        (t : ℕ) (ctx : Context Any) (w : World (State N))
        → operation_of P ctx ≡ codes "/whoami"
        → has_prefix (bearer N P ctx) (codes "demo-") ≡ false
        → ((visited t ctx w).rest.bucket ≡ w.rest.bucket)
          × (counted_ok (visited t ctx w).requests ≡ false)
    visited_refused t ctx w o h =
        let (w3, e, r, rs, hd) =
          unauthorized_at N P K encode_error T boxed http_addr ctx (arrives t w) o h in
        let at = ap (λ (r : RawEnd P × World (State N)). r.1) e in
        let (bucket, requests) = encodes (of_kratos (Auth.err_unauthorized P)) w3 in
        (
          ap (λ (v : World (State N)). v.rest.bucket) at
              ∙ bucket
              ∙ ap (λ (v : State N). v.bucket) rs,
          ap (λ (v : World (State N)). counted_ok v.requests) at
              ∙ ap counted_ok (requests ∙ r)
              ∙ unauthorized-metric_code P,
        )

    -- The requests of a key that pass are those that the rate limiter admits, where the last request
    -- that got to it was at `t`, and the world is at `u`.
    passed-admitted :
        (k : GoString) (t c u : ℕ) (vs : Visits) (w : World (State N)) (b : Bucket N)
        → All IsWhoami vs
        → w.rest.bucket ≡ b
        → u ≡ t + c
        → passed k u vs w ≡ admitted N k t (limited c vs) b
    unfolding passed limited admitted
    passed-admitted k t c u [] w b i e n = refl
    passed-admitted k t c u ((d, ctx) ∷ vs) w b (o, i) e n =
        let at : u + d ≡ t + (c + d) = omega (arith, n) in
        elim (Bool-cases (has_prefix (bearer N P ctx) (codes "demo-"))) [
          | inl h ↦
              let (ok, b') = allow N (t + (c + d)) (key_of ctx) b in
              let asked : allow N (u + d) (key_of ctx) w.rest.bucket ≡ (ok, b') = cc (at, e) in
              let (bucket, counted) = visited_ok (u + d) ctx w b' ok o h asked in
              let next =
                passed-admitted k (t + (c + d)) 0 (u + d) vs (visited (u + d) ctx w) b' i bucket
                  (omega arith) in
              rw h (sum_same _ ok _ _ _ counted next)
          | inr h ↦
              let (bucket, counted) = visited_refused (u + d) ctx w o h in
              let next =
                passed-admitted k t (c + d) (u + d) vs (visited (u + d) ctx w) b i (bucket ∙ e)
                  (omega arith) in
              rw h (sum_same _ false (eq_str (key_of ctx) k) _ _ counted next ∙ none_more _)
        ]

    -- A started kris-beta serves /whoami by a handler that, over any sequence of requests to it,
    -- under any tokens and from any clients, counts at most 100 + 50 * T of a client's requests as
    -- served without an error in a time of T seconds from its new bucket, when each limiter is a token
    -- bucket and the response that encodes an error leaves the bucket and the counts.
    pub passed-le :
        (rate : N.Limiter → ℕ) (credit : ℕ → N.Limiter → ℕ)
        → IsTokenBucket N rate credit
        → (k : GoString) (t : ℕ) (vs : Visits) (w : World (State N)) → All IsWhoami vs
        → w.rest.bucket ≡ new_bucket N (pos 50) (pos 100)
        → Serves N P K encode_error T boxed http_addr
            (codes "/whoami")
            (guarded N P K encode_error T boxed http_addr (whoami N P K encode_error))
          × (passed k t vs w * token ≤ 100 * token + 50 * lasting vs)
    passed-le rate credit law k t vs w i e = (
      (new_hs-Serves N P K encode_error T boxed http_addr).1,
      omega (
        arith,
        passed-admitted k t 0 t vs w (new_bucket N (pos 50) (pos 100)) i e (omega arith),
        admitted-le N rate credit law 50 100 k t (limited 0 vs),
        elapsed-limited 0 vs,
      ),
    )
