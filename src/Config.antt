-- ===== src/Config.antt =====
-- pkg/config: loader.go and secret.go. The process environment is an association list from names to
-- values; the file system is a function from paths to contents. A path is its segments, the
-- innermost first, from the root or from the working directory.
pub mod Parsing
pub mod Precedence
pub mod Root
pub mod Getters
mod Tests
use go_infrastructure.Prelude.{
  ℕ, suc, ℤ, Bool, true, false, Option, none, some, List, [], ◌∷◌, GoString, codes, ◌==◌, ◌||◌,
  ◌&&◌, not, is_empty, eq_str, take, drop, index_byte, trim_space, trim_both, split, has_prefix,
  lookup, insert, if◌then◌else◌,
}

abbrev pub Environ : Type 0
Environ = List (GoString × GoString)

abbrev pub newline : ℕ
newline = b'\n'

abbrev has_byte : ℕ → GoString → Bool
has_byte c [] = false
has_byte c (b ∷ s) = (b == c) || has_byte c s

-- `os.Setenv`: it refuses an empty name, a name with `=` or NUL, and a value with NUL.
pub setenv : GoString → GoString → Environ → Option Environ
setenv key val env =
    if is_empty key || (has_byte b'=' key || has_byte 0 key)
    then none
    else if has_byte 0 val
    then none
    else some (insert key val env)

abbrev pub is_quote : ℕ → Bool
is_quote c = (c == b'"') || (c == b'\'')

-- The key and value that a trimmed line of a .env file sets, if it sets one.
parse_trimmed : GoString → Option (GoString × GoString)
parse_trimmed line =
    if is_empty line || has_prefix line (codes "#") then none else elim (index_byte line b'=') [
      | some (suc i) ↦ some (
        trim_space (take (suc i) line),
        trim_both is_quote (trim_space (drop (suc (suc i)) line)),
      )
      | _ ↦ none
    ]

pub parse_line : GoString → Option (GoString × GoString)
parse_line raw = parse_trimmed (trim_space raw)

-- The assignment of a pair: not over a name that is set, and the error of `os.Setenv` is dropped.
pub assign : GoString × GoString → Environ → Environ
unfolding setenv
assign (key, val) env = elim (lookup key env) [
  | some old ↦ env
  | none ↦ elim (setenv key val env) [ some env' ↦ env' | none ↦ env ]
]

pub load_lines : List GoString → Environ → Environ
load_lines [] env = env
load_lines (raw ∷ raws) env = elim (parse_line raw) [
  | none ↦ load_lines raws env
  | some kv ↦ load_lines raws (assign kv env)
]

pub record FilePath : Type 0 where
  pub absolute : Bool
  pub parts : List GoString

-- `filepath.Join(p, name)` for a name of one segment, and `filepath.Dir`.
abbrev pub join_path : FilePath → GoString → FilePath
join_path p name = record p { parts = name ∷ p.parts }

abbrev outer : List GoString → List GoString
outer [] = []
outer (d ∷ ds) = ds

abbrev pub dir_of : FilePath → FilePath
dir_of p = record p { parts = outer p.parts }

abbrev pub here : FilePath
here = record { absolute = false; parts = [] }

-- `stat` is whether `os.Stat` succeeds; `read` is `os.ReadFile`, `none` for its error.
pub record Files : Type 0 where
  pub stat : FilePath → Bool
  pub read : FilePath → Option GoString
  pub getwd : Option (List GoString)

abbrev pub markers : List GoString
markers = codes ".git" ∷ codes "go.work" ∷ []

module _ (fs : Files) where
  -- The error of `loadDotEnv` is `none`.
  pub load_dot_env : FilePath → Environ → Option Environ
  unfolding load_lines
  load_dot_env path env = elim (fs.read path) [
    | none ↦ none
    | some text ↦ some (load_lines (split text newline) env)
  ]

  pub has_marker : List GoString → List GoString → Bool
  has_marker [] dir = false
  has_marker (m ∷ ms) dir =
      fs.stat (record { absolute = true; parts = m ∷ dir }) || has_marker ms dir

  -- The walk up of `findProjectRoot`; the root of the file system is its own parent.
  pub root_from : List GoString → FilePath
  unfolding has_marker
  root_from [] = if has_marker markers [] then record { absolute = true; parts = [] } else here
  root_from (d ∷ ds) =
      let above = root_from ds in
      if has_marker markers (d ∷ ds) then record { absolute = true; parts = d ∷ ds } else above

  pub find_project_root : FilePath
  unfolding root_from
  find_project_root = elim (fs.getwd) [ none ↦ here | some cwd ↦ root_from cwd ]

  pub record Loader : Type 0 where
    pub service_name : GoString
    pub search_paths : List FilePath

  pub new_loader : GoString → Loader
  unfolding find_project_root
  new_loader name =
      let root = find_project_root in
      let service_dir = join_path root name in
      record { service_name = name; search_paths = service_dir ∷ root ∷ dir_of service_dir ∷ [] }

  -- `""` is `none`.
  pub find_in : List FilePath → GoString → Option FilePath
  find_in [] filename = none
  find_in (dir ∷ dirs) filename =
      let path = join_path dir filename in if fs.stat path then some path else find_in dirs filename

  pub data LoadError : Type 0 where
    global_config service_example service_config : LoadError

  pub data LoadResult : Type 0 where
    loaded : LoadResult
    failed : LoadError → LoadResult

  -- One of the three steps of `Load`: the file, if it is found, and then the rest.
  load_step :
      Loader
      → GoString
      → LoadError
      → (Environ → LoadResult × Environ)
      → Environ
      → LoadResult × Environ
  load_step l filename err rest env = elim (find_in l.search_paths filename) [
    | none ↦ rest env
    | some path ↦ elim (load_dot_env path env) [ none ↦ (failed err, env) | some env' ↦ rest env' ]
  ]

  pub load : Loader → Environ → LoadResult × Environ
  unfolding load_step load_dot_env find_in
  load l env =
      load_step l (codes ".env.global") global_config
        (load_step l (codes ".env.example") service_example
          (load_step l (codes ".env") service_config (λ env'. (loaded, env'))))
        env

-- `strconv.ParseBool`, `none` for its error
abbrev true_words : List GoString
true_words = codes "1" ∷ codes "t" ∷ codes "T" ∷ codes "true" ∷ codes "TRUE" ∷ codes "True" ∷ []

abbrev false_words : List GoString
false_words = codes "0" ∷ codes "f" ∷ codes "F" ∷ codes "false" ∷ codes "FALSE" ∷ codes "False" ∷ []

abbrev among : GoString → List GoString → Bool
among s [] = false
among s (w ∷ ws) = eq_str s w || among s ws

pub parse_bool : GoString → Option Bool
parse_bool s =
    if among s true_words then some true else if among s false_words then some false else none

-- `os.Getenv`: "" for a name that is not set
abbrev pub getenv : Environ → GoString → GoString
getenv env key = elim (lookup key env) [ none ↦ [] | some v ↦ v ]

pub get_env : Environ → GoString → GoString → GoString
get_env env key default = if is_empty (getenv env key) then default else getenv env key

pub get_env_bool : Environ → GoString → Bool → Bool
unfolding parse_bool
get_env_bool env key default =
    let v = getenv env key in
    if is_empty v then default else elim (parse_bool v) [ none ↦ default | some b ↦ b ]

-- `parse` is `time.ParseDuration`, `none` for its error; a duration is a number of nanoseconds.
pub get_env_duration : (GoString → Option ℤ) → Environ → GoString → ℤ → ℤ
get_env_duration parse env key default =
    let v = getenv env key in
    if is_empty v then default else elim (parse v) [ none ↦ default | some d ↦ d ]

-- `none` is the panic.
pub must_get_secret : Environ → GoString → Option GoString
must_get_secret env key = if is_empty (getenv env key) then none else some (getenv env key)

pub get_secret : Environ → GoString → GoString
get_secret env key = getenv env key
