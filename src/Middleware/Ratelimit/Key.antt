-- ===== src/Middleware/Ratelimit/Key.antt =====
-- Which bucket a request falls in under the default key.
use go_infrastructure.Prelude.{
  ℕ, ◌≡◌, ◌≢◌, refl, ap, ◌∙◌, sym, arith, false, Option, none, some, [], ◌∷◌, ◌++◌, GoString, codes,
  is_empty, length, take-append, trim_both-append, All, All-append, Ends, Dropped, ◌==◌,
}
use go_infrastructure.Middleware.Handler.{Context, Transport}
use go_infrastructure.Middleware.Ratelimit.{
  Net, is_blank, index_comma, trim, remote_peer, first_hop, default_key,
}
use go_infrastructure.Middleware.Ratelimit.Trim.{trim-trim_both}

abbrev pub NoComma : GoString → Type 0
NoComma = All (λ c. (c == b',') ≡ false)

index_comma-append :
    (s rest : GoString) → NoComma s → index_comma (s ++ b',' ∷ rest) ≡ some (length s)
unfolding index_comma
index_comma-append [] rest h = refl
index_comma-append (c ∷ s) rest h = rw (h.0, index_comma-append s rest h.1)

blank-NoComma : (s : GoString) → Dropped is_blank s → NoComma s
blank-NoComma [] h = tt
blank-NoComma (c ∷ s) h = (ground arith, blank-NoComma s h.1)

hop-ne-nil : (pre : GoString) (b : ℕ) (c : GoString) → pre ++ b ∷ c ≢ []
hop-ne-nil [] b c = cc
hop-ne-nil (x ∷ pre) b c = cc

is_empty-append : (s t : GoString) → t ≢ [] → is_empty (s ++ t) ≡ false
is_empty-append [] [] h = absurd (h refl)
is_empty-append [] (b ∷ t) h = refl
is_empty-append (x ∷ s) t h = refl

hop-NoComma :
    (pre c post : GoString) (b : ℕ)
    → Dropped is_blank pre
    → Dropped is_blank post
    → NoComma (b ∷ c)
    → NoComma (pre ++ ((b ∷ c) ++ post))
hop-NoComma pre c post b h k n =
    All-append _ pre ((b ∷ c) ++ post) (blank-NoComma pre h)
      (All-append _ (b ∷ c) post n (blank-NoComma post k))

module _ (N : Net) {Any : Type 0} (ctx : Context Any) (op : GoString) where
  open N use {split_host}

  trim-padded :
      (pre c post : GoString) (b : ℕ)
      → Dropped is_blank pre
      → Dropped is_blank post
      → is_blank b ≡ false
      → Ends is_blank (b ∷ c)
      → trim (pre ++ ((b ∷ c) ++ post)) ≡ b ∷ c
  trim-padded pre c post b h k a e =
      trim-trim_both _ ∙ trim_both-append is_blank pre (b ∷ c) post h k a e

  first_hop-comma :
      (s rest : GoString) → s ≢ [] → NoComma s → first_hop N (s ++ b',' ∷ rest) ≡ trim s
  unfolding first_hop
  first_hop-comma [] rest n h = absurd (n refl)
  first_hop-comma (c ∷ s) rest n h =
      rw (index_comma-append (c ∷ s) rest h, first_hop)
        (ap trim (take-append (c ∷ s) (b',' ∷ rest)))

  -- A request whose x-forwarded-for names a first hop, with blanks or tabs round it and a comma
  -- and further hops behind it, falls in the bucket of exactly that hop, whatever the other
  -- headers and the peer say.
  pub default_key-first_hop :
      (tr : Transport) (pre c post rest : GoString) (b : ℕ)
      → ctx.server ≡ some tr
      → tr.get (codes "x-forwarded-for") ≡ (pre ++ ((b ∷ c) ++ post)) ++ b',' ∷ rest
      → Dropped is_blank pre
      → Dropped is_blank post
      → is_blank b ≡ false
      → Ends is_blank (b ∷ c)
      → NoComma (b ∷ c)
      → default_key N ctx op ≡ b ∷ c
  unfolding default_key
  default_key-first_hop tr pre c post rest b s g h k a e n =
      let hop = pre ++ ((b ∷ c) ++ post) in
      rw (s, default_key, g)
        (rw (is_empty-append hop (b',' ∷ rest) (λ e. cc)) (
          first_hop-comma hop rest (hop-ne-nil pre b (c ++ post)) (hop-NoComma pre c post b h k n)
          ∙ trim-padded pre c post b h k a e))

module _ (N : Net) (op : GoString) where
  abbrev key_from : Option Transport → Option GoString → GoString
  key_from server peer =
      default_key N {Any = ℕ}
        (record { server = server; client = none; span = none; peer = peer; values = [] }) op

  default_key-key_from :
      {Any : Type 0} (c : Context Any) → default_key N c op ≡ key_from c.server c.peer
  unfolding default_key remote_peer
  default_key-key_from c = refl

  -- The key depends on a context through its transport and its peer only.
  pub default_key_same :
      {Any : Type 0} (c d : Context Any)
      → c.server ≡ d.server
      → c.peer ≡ d.peer
      → default_key N c op ≡ default_key N d op
  default_key_same c d e f =
      default_key-key_from c
      ∙ ap (λ s. key_from s c.peer) e
      ∙ ap (key_from d.server) f
      ∙ sym (default_key-key_from d)
