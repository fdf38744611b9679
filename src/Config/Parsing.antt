-- ===== src/Config/Parsing.antt =====
-- What a line of a .env file sets.
use go_infrastructure.Prelude.{
  ℕ, suc, ◌≡◌, ◌≢◌, refl, sym, ap, ◌∙◌, arith, false, some, [], ◌∷◌, ◌++◌, append-nil, GoString,
  ◌==◌, length, drop, take-append, index_byte, trim_space, trim_both, has_prefix, is_space, Starts,
  Ends, Dropped, trim_both-append, Starts-append, Ends-append, All, All-append,
}
use go_infrastructure.Config.{parse_line, parse_trimmed, is_quote}

abbrev pub NoEquals : GoString → Type 0
NoEquals = All (λ c. (c == b'=') ≡ false)

index_byte-append :
    (s rest : GoString) → NoEquals s → index_byte (s ++ b'=' ∷ rest) b'=' ≡ some (length s)
unfolding index_byte
index_byte-append [] rest h = refl
index_byte-append (c ∷ s) rest h = rw (h.0, index_byte-append s rest h.1)

space-NoEquals : (s : GoString) → Dropped is_space s → NoEquals s
space-NoEquals [] h = tt
space-NoEquals (c ∷ s) h = (ground arith, space-NoEquals s h.1)

trim_surrounded :
    (pre s post : GoString)
    → s ≢ []
    → Starts is_space s
    → Ends is_space s
    → Dropped is_space pre
    → Dropped is_space post
    → trim_space (pre ++ (s ++ post)) ≡ s
unfolding trim_space
trim_surrounded pre s post n a b h k =
    trim_both-append is_space pre s post h k (Starts-append is_space s post n a) b

trim_before :
    (pre s : GoString)
    → s ≢ []
    → Starts is_space s
    → Ends is_space s
    → Dropped is_space pre
    → trim_space (pre ++ s) ≡ s
trim_before pre s n a b h =
    ap (λ t. trim_space (pre ++ t)) (sym (append-nil s)) ∙ trim_surrounded pre s [] n a b h tt

drop_past : (s : GoString) (x : ℕ) (t : GoString) → drop (suc (length s)) (s ++ x ∷ t) ≡ t
drop_past [] x t = refl
drop_past (c ∷ s) x t = drop_past s x t

parse_trimmed-append :
    (c before after body : GoString) (b : ℕ)
    → Dropped is_space before
    → Dropped is_space after
    → is_space b ≡ false
    → (b == b'#') ≡ false
    → Ends is_space (b ∷ c)
    → NoEquals (b ∷ c)
    → body ≢ []
    → Starts is_space body
    → Ends is_space body
    → parse_trimmed (((b ∷ c) ++ before) ++ b'=' ∷ (after ++ body))
      ≡ some (b ∷ c, trim_both is_quote body)
unfolding parse_trimmed has_prefix
parse_trimmed-append c before after body b hb ha s n e q m sb eb =
    let key = (b ∷ c) ++ before in
    rw (
      n,
      index_byte-append key (after ++ body)
          (All-append _ (b ∷ c) before q (space-NoEquals before hb)),
      take-append key (b'=' ∷ (after ++ body)),
      drop_past key b'=' (after ++ body),
      trim_surrounded [] (b ∷ c) before (λ z. cc) s e tt hb,
      trim_before after body m sb eb ha,
    )

-- A line `key = body`, with ASCII white space allowed at every place, sets the key to the body
-- without the quotes at its ends, where the key is not empty, does not begin with `#` and has no
-- `=`, and the body is not empty and has no white space at its ends.
pub parse_line-append :
    (pre c before after body post : GoString) (b : ℕ)
    → Dropped is_space pre
    → Dropped is_space before
    → Dropped is_space after
    → Dropped is_space post
    → is_space b ≡ false
    → (b == b'#') ≡ false
    → Ends is_space (b ∷ c)
    → NoEquals (b ∷ c)
    → body ≢ []
    → Starts is_space body
    → Ends is_space body
    → parse_line (pre ++ ((((b ∷ c) ++ before) ++ b'=' ∷ (after ++ body)) ++ post))
      ≡ some (b ∷ c, trim_both is_quote body)
unfolding parse_line
parse_line-append pre c before after body post b hp hb ha ho s n e q m sb eb =
    let line = ((b ∷ c) ++ before) ++ b'=' ∷ (after ++ body) in
    ap parse_trimmed (
      trim_surrounded pre line post (λ z. cc) s
        (Ends-append is_space ((b ∷ c) ++ before) (b'=' ∷ (after ++ body)) (λ z. cc)
          (Ends-append is_space (b'=' ∷ after) body m eb))
        hp ho)
    ∙ parse_trimmed-append c before after body b hb ha s n e q m sb eb
