-- ===== src/Config/Precedence.antt =====
-- Which source a variable has its value from after `Load`.
use go_infrastructure.Prelude.{
  ◌≡◌, refl, sym, ◌∙◌, arith, Bool, true, false, ◌⊎◌, inl, inr, Option, none, some, Option-cases,
  List, [], ◌∷◌, ◌++◌, GoString, codes, is_empty, eq_str, eq_str_iff, split, lookup, insert,
  lookup-insert, not, ◌&&◌, ◌||◌, if◌then◌else◌,
}
use go_infrastructure.Config.{
  Environ, newline, has_byte, setenv, parse_line, assign, load_lines, Files, load_dot_env, Loader,
  find_in, LoadError, LoadResult, loaded, failed, load_step, load, global_config, service_example,
  service_config,
}

-- A pair that the operating system takes as a variable.
abbrev pub settable : GoString × GoString → Bool
settable (key, val) =
    not (is_empty key || (has_byte b'=' key || has_byte 0 key)) && not (has_byte 0 val)

-- The value that the first line for `k` gives.
pub first_value : GoString → List GoString → Option GoString
first_value k [] = none
first_value k (raw ∷ raws) = elim (parse_line raw) [
  | none ↦ first_value k raws
  | some kv ↦ if settable kv && eq_str kv.0 k then some kv.1 else first_value k raws
]

abbrev pub or_else : Option GoString → Option GoString → Option GoString
or_else none b = b
or_else (some a) b = some a

setenv-settable :
    (key val : GoString) (env : Environ)
    → setenv key val env ≡ (if settable (key, val) then some (insert key val env) else none)
unfolding setenv
setenv-settable key val env = ground arith

-- The value goes in only where the name has none.
set_free :
    (k key val : GoString) (b : Bool) (env : Environ)
    → lookup key env ≡ none
    → lookup k
        (elim (if b then some (insert key val env) else none) [ some env' ↦ env' | none ↦ env ])
      ≡ or_else (lookup k env) (if b && eq_str key k then some val else none)
set_free k key val false env n = ground arith
set_free k key val true env n = ground (arith, lookup-insert key k val env, eq_str_iff key k)

kept_old :
    (k key val old : GoString) (b : Bool) (env : Environ)
    → lookup key env ≡ some old
    → lookup k env ≡ or_else (lookup k env) (if b && eq_str key k then some val else none)
kept_old k key val old b env s = ground (arith, eq_str_iff key k)

or_else_if :
    (a b : Option GoString) (c : Bool) (v : GoString)
    → or_else (or_else a (if c then some v else none)) b ≡ or_else a (if c then some v else b)
or_else_if none b c v = ground arith
or_else_if (some a) b c v = refl

lookup-assign :
    (k : GoString) (kv : GoString × GoString) (env : Environ)
    → lookup k (assign kv env)
      ≡ or_else (lookup k env) (if settable kv && eq_str kv.0 k then some kv.1 else none)
unfolding assign
lookup-assign k (key, val) env = elim (Option-cases (lookup key env)) [
  | inl n ↦
      rw (n, assign, setenv-settable key val env) (set_free k key val (settable (key, val)) env n)
  | inr (old, s) ↦ rw (s, assign) (kept_old k key val old (settable (key, val)) env s)
]

lookup-load_lines :
    (k : GoString) (raws : List GoString) (env : Environ)
    → lookup k (load_lines raws env) ≡ or_else (lookup k env) (first_value k raws)
unfolding load_lines first_value
lookup-load_lines k [] env = ground arith
lookup-load_lines k (raw ∷ raws) env = elim (Option-cases (parse_line raw)) [
  | inl n ↦ rw (n, load_lines, first_value) (lookup-load_lines k raws env)
  | inr (kv, s) ↦
      rw (s, load_lines, first_value)
        (lookup-load_lines k raws (assign kv env)
          ∙ rw (lookup-assign k kv env)
              (or_else_if (lookup k env) (first_value k raws) (settable kv && eq_str kv.0 k) kv.1))
]

module _ (fs : Files) where
  -- The lines of the file that a loader finds under a name; no file has no lines.
  pub lines_of : Loader fs → GoString → List GoString
  lines_of l filename = elim (find_in fs l.search_paths filename) [
    | none ↦ []
    | some path ↦ elim (fs.read path) [ none ↦ [] | some text ↦ split text newline ]
  ]

  first_value-append :
      (k : GoString) (xs ys : List GoString)
      → first_value k (xs ++ ys) ≡ or_else (first_value k xs) (first_value k ys)
  unfolding first_value
  first_value-append k [] ys = refl
  first_value-append k (raw ∷ xs) ys = elim (Option-cases (parse_line raw)) [
    | inl n ↦ rw (n, first_value) (first_value-append k xs ys)
    | inr (kv, s) ↦ rw (s, first_value) (ground (arith, first_value-append k xs ys))
  ]

  or_else-none : (a : Option GoString) → a ≡ or_else a none
  or_else-none none = refl
  or_else-none (some a) = refl

  -- One step either fails, or leaves each name with its old value, or else the first of the file.
  load_step_cases :
      (l : Loader fs) (filename : GoString) (err : LoadError fs)
      (rest : Environ → LoadResult fs × Environ) (env : Environ)
      → (load_step fs l filename err rest env ≡ (failed err, env))
        ⊎ ((env' : Environ) × (load_step fs l filename err rest env ≡ rest env')
            × ((k : GoString)
                → lookup k env' ≡ or_else (lookup k env) (first_value k (lines_of l filename))))
  unfolding load_step load_dot_env lines_of lookup first_value
  load_step_cases l filename err rest env =
      elim (Option-cases (find_in fs l.search_paths filename)) [
        | inl n ↦ inr (env, rw (n, load_step), λ k. rw (n, lines_of) (or_else-none (lookup k env)))
        | inr (path, p) ↦ elim (Option-cases (fs.read path)) [
          | inl n ↦ inl (rw (p, load_step, n))
          | inr (text, t) ↦ inr (
            load_lines (split text newline) env,
            rw (p, load_step, t),
            λ k. rw (p, lines_of, t) (lookup-load_lines k (split text newline) env),
          )
        ]
      ]

  load_step-loaded :
      (l : Loader fs) (filename : GoString) (err : LoadError fs)
      (rest : Environ → LoadResult fs × Environ) (env env' : Environ)
      → load_step fs l filename err rest env ≡ (loaded, env')
      → (mid : Environ) × (rest mid ≡ (loaded, env'))
        × ((k : GoString)
            → lookup k mid ≡ or_else (lookup k env) (first_value k (lines_of l filename)))
  load_step-loaded l filename err rest env env' e = elim (load_step_cases l filename err rest env) [
    | inl stop ↦ absurd (ground (arith, sym stop ∙ e))
    | inr (mid, eq, keys) ↦ (mid, sym eq ∙ e, keys)
  ]

  or_else_assoc : (a b c : Option GoString) → or_else (or_else a b) c ≡ or_else a (or_else b c)
  or_else_assoc none b c = refl
  or_else_assoc (some a) b c = refl

  first_of_three :
      (k : GoString) (env a b c env' : Environ)
      → c ≡ env'
      → (xs ys zs : List GoString) → lookup k a ≡ or_else (lookup k env) (first_value k xs)
      → lookup k b ≡ or_else (lookup k a) (first_value k ys)
      → lookup k c ≡ or_else (lookup k b) (first_value k zs)
      → lookup k env' ≡ or_else (lookup k env) (first_value k (xs ++ (ys ++ zs)))
  first_of_three k env a b c env' same xs ys zs ka kb kc =
      rw (first_value-append k xs (ys ++ zs), first_value-append k ys zs, ← same, kc, kb, ka)
        (or_else_assoc (or_else (lookup k env) (first_value k xs)) (first_value k ys)
            (first_value k zs)
          ∙ or_else_assoc (lookup k env) (first_value k xs)
              (or_else (first_value k ys) (first_value k zs)))

  -- When `Load` succeeds, each variable has the value it had, or else the value of the first line
  -- for it that the system takes, in .env.global, then .env.example, then the service's .env. So a
  -- value of .env.global wins over one of the service's .env.
  pub load-first_value :
      (l : Loader fs) (env env' : Environ) (k : GoString)
      → load fs l env ≡ (loaded, env')
      → lookup k env'
        ≡ or_else (lookup k env) (
            first_value k (
              lines_of l (codes ".env.global")
              ++ (lines_of l (codes ".env.example") ++ lines_of l (codes ".env"))))
  unfolding load
  load-first_value l env env' k e =
      let last : Environ → LoadResult fs × Environ = λ x. (loaded, x) in
      let own = load_step fs l (codes ".env") service_config last in
      let example = load_step fs l (codes ".env.example") service_example own in
      let (a, ea, ka) = load_step-loaded l (codes ".env.global") global_config example env env' e in
      let (b, eb, kb) = load_step-loaded l (codes ".env.example") service_example own a env' ea in
      let (c, ec, kc) = load_step-loaded l (codes ".env") service_config last b env' eb in
      let same : c ≡ env' = cc ec in
      first_of_three k env a b c env' same (lines_of l (codes ".env.global"))
        (lines_of l (codes ".env.example")) (lines_of l (codes ".env")) (ka k) (kb k) (kc k)
