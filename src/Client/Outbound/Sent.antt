-- ===== src/Client/Outbound/Sent.antt =====
-- Requests with a trace id, through the innermost layers of a client.
use go_infrastructure.Prelude.{
  ℕ, zero, suc, ◌≤◌, ◌≡◌, refl, ap, ◌∙◌, arith, Bool, true, false, Bool-cases, inl, inr, Option,
  none, some, List, ◌∷◌, pos, GoString, is_empty, lookup, insert, leb_ℤ, pos_part, if◌then◌else◌,
}
use go_infrastructure.Kratos.Defs.{Platform}
use go_infrastructure.Middleware.Handler.{Context, Transport, Handler}
use go_infrastructure.Middleware.World.{World}
use go_infrastructure.Middleware.Logid
use go_infrastructure.Middleware.Logid.{metadata_key, from_context}
use go_infrastructure.Middleware.Retry
use go_infrastructure.Middleware.Retry.Invariant.{client-Within}
use go_infrastructure.Client.Outbound.{Outside, surroundings}

-- So many entries in front of a list.
abbrev pub times {ℓ} : {A : Type ℓ} → ℕ → A → List A → List A
times zero a xs = xs
times (suc n) a xs = a ∷ times n a xs

-- The trace id of the context goes into the header of the request.
pub forwards :
    (P : Platform) {R : Type 0} (h : Handler P (World R)) (ctx : Context P.Any) (req : P.Any)
    (w : World R) (tr : Transport)
    → ctx.client ≡ some tr
    → is_empty (from_context P ctx) ≡ false
    → Logid.client P h ctx req w
      ≡ h ctx req
          (record w { request_header = insert metadata_key (from_context P ctx) w.request_header })
unfolding Logid.client
forwards P h ctx req w tr s n = rw (n, s)

module _ (P : Platform) {R : Type 0} (O : Outside P R) (no_breaker : Bool) (id : GoString)
    (before : List (Option GoString)) where
  open P use {Any}
  open O use {calls, send}

  -- A state after `n` calls of the layers behind retry, each of which has sent at most one request,
  -- with the trace id, and one where there is no breaker; it has that id for the next call.
  pub record Sent (n : ℕ) (w : World R) : Type 0 where
    pub header : lookup metadata_key w.request_header ≡ some id
    pub count : ℕ
    pub at_most : count ≤ n
    pub at_least : no_breaker ≡ true → n ≤ count
    pub sent : calls w.rest ≡ times count (some id) before

  Sent-kept :
      (n : ℕ) (w w' : World R)
      → (w'.request_header ≡ w.request_header) × (calls w'.rest ≡ calls w.rest)
      → Sent n w
      → Sent n w'
  Sent-kept n w w' (h, c) s = record {
    header = ap (lookup metadata_key) h ∙ s.header;
    count = s.count;
    at_most = s.at_most;
    at_least = s.at_least;
    sent = c ∙ s.sent;
  }

  Sent-refused : (n : ℕ) (w : World R) → no_breaker ≡ false → Sent n w → Sent (suc n) w
  Sent-refused n w f s = record {
    header = s.header;
    count = s.count;
    at_most = omega (arith, s.at_most);
    at_least = λ e. absurd (cc (e, f));
    sent = s.sent;
  }

  -- A handler that calls the transport at most once.
  unfoldable pub Sends : Handler P (World R) → Type 0
  Sends h =
      (n : ℕ) (ctx : Context Any) (req : Any) (w : World R)
      → Sent n w
      → Sent (suc n) (h ctx req w).1

  pub send-Sends : Sends send
  unfolding Sends
  send-Sends n ctx req w s =
      let (h, c) = O.send_lem ctx req w in
      record {
        header = ap (lookup metadata_key) h ∙ s.header;
        count = suc s.count;
        at_most = omega (arith, s.at_most);
        at_least = λ e. omega (arith, s.at_least e);
        sent = rw (c, s.header, s.sent) refl;
      }

  pub break-Sends : (h : Handler P (World R)) → no_breaker ≡ false → Sends h → Sends (O.break h)
  unfolding Sends
  break-Sends h f k n ctx req w s = elim (Bool-cases (O.admits ctx w)) [
    | inl e ↦
        rw (O.break_lem h ctx req w, e)
          (Sent-kept (suc n) _ _ (O.mark_lem (some (h ctx req w).0) (h ctx req w).1)
            (k n ctx req w s))
    | inr e ↦
        rw (O.break_lem h ctx req w, e) (Sent-refused n _ f (Sent-kept n _ _ (O.mark_lem none w) s))
  ]

  -- A state after at least `least` and at most `bound` such calls.
  abbrev pub SentWithin : ℕ → ℕ → World R → Type 0
  SentWithin least bound w = (n : ℕ) × (least ≤ n) × (n ≤ bound) × Sent n w

  module _ (alive : Bool) (ctx : Context Any)
      (live : alive ≡ true → (v : World R) → O.ctx_err ctx v ≡ none) (req : Any) where
    pub retry-Sends :
        (h : Handler P (World R)) (o : Retry.Options P) (w : World R)
        → Sends h
        → Sent 0 w
        → SentWithin
            (if alive then 1 else 0)
            (if leb_ℤ o.max_attempts (pos 1) then 1 else pos_part o.max_attempts)
            (Retry.client P (surroundings P O h ctx req) o w).1
    unfolding Sends
    retry-Sends h o w k s =
        client-Within P (surroundings P O h ctx req) Sent (λ n w' s'. k n ctx req w' s')
          (λ n w' s'. Sent-kept n w' _ (O.draw_lem w') s')
          (λ n d w' s'. Sent-kept n w' _ (O.timer_fires_lem ctx d w') s') o alive w live s
