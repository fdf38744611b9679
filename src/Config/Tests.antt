-- ===== src/Config/Tests.antt =====
-- The configuration theorems at a small project.
use go_infrastructure.Prelude.{
  ◌≡◌, refl, arith, Bool, true, false, Option, none, some, List, [], ◌∷◌, ◌++◌, GoString, codes,
  trim_both, eq_str, lookup, insert, split, trim_space, index_byte, has_prefix, if◌then◌else◌, ◌&&◌,
}
use go_infrastructure.Config.{
  Environ, Files, parse_line, parse_trimmed, assign, load_lines, load, new_loader,
  find_project_root, root_from, has_marker,
}
use go_infrastructure.Config.Parsing.{parse_line-append}
use go_infrastructure.Config.Precedence.{first_value, or_else, lines_of, load-first_value}
use go_infrastructure.Config.Root.{IsNearest, find_project_root-IsNearest}

parse_line-append_example :
    parse_line (codes " NAME = \"kris\" ") ≡ some (codes "NAME", codes "kris")
unfolding trim_both
parse_line-append_example =
    parse_line-append (codes " ") (codes "AME") (codes " ") (codes " ") (codes "\"kris\"")
      (codes " ") b'N' (refl, tt) (refl, tt) (refl, tt) (refl, tt) refl refl refl (ground arith)
      (λ e. cc) refl refl

abbrev same_parts : List GoString → List GoString → Bool
same_parts [] [] = true
same_parts (a ∷ p) (b ∷ q) = eq_str a b && same_parts p q
same_parts _ _ = false

abbrev table : List (List GoString × GoString)
table =
    (codes ".git" ∷ codes "repo" ∷ [], [])
    ∷ (codes ".env.global" ∷ codes "repo" ∷ [], codes "SHARED=global\n")
    ∷ (codes ".env" ∷ codes "svc" ∷ codes "repo" ∷ [], codes "# own\nSHARED=own\nNAME=svc\n")
    ∷ []

abbrev find_file : List GoString → List (List GoString × GoString) → Option GoString
find_file p [] = none
find_file p ((q, text) ∷ rest) = if same_parts p q then some text else find_file p rest

abbrev is_found : Option GoString → Bool
is_found none = false
is_found (some text) = true

abbrev disk : Files
disk = record {
  stat = λ p. is_found (find_file p.parts table);
  read = λ p. find_file p.parts table;
  getwd = some (codes "svc" ∷ codes "repo" ∷ []);
}

config_code : Unit {0}
unfolding load load_lines parse_line parse_trimmed assign new_loader find_project_root root_from
    has_marker lookup insert split trim_space index_byte has_prefix eq_str
config_code = tt

after : Environ
unfolding config_code
after = (load disk (new_loader disk (codes "svc")) []).1

-- The value of .env.global stays, against the documented order.
global_wins :
    (lookup (codes "SHARED") after ≡ some (codes "global"))
    × (lookup (codes "NAME") after ≡ some (codes "svc"))
unfolding config_code after
global_wins = (refl, refl)

load-first_value_example :
    lookup (codes "SHARED") after
    ≡ or_else none (
        first_value (codes "SHARED") (
          lines_of disk (new_loader disk (codes "svc")) (codes ".env.global")
          ++ (lines_of disk (new_loader disk (codes "svc")) (codes ".env.example")
              ++ lines_of disk (new_loader disk (codes "svc")) (codes ".env"))))
unfolding config_code after
load-first_value_example =
    load-first_value disk (new_loader disk (codes "svc")) [] after (codes "SHARED") refl

find_project_root-IsNearest_example :
    IsNearest disk (codes "svc" ∷ codes "repo" ∷ []) (find_project_root disk)
find_project_root-IsNearest_example =
    find_project_root-IsNearest disk (codes "svc" ∷ codes "repo" ∷ []) refl
