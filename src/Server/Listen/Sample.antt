-- ===== src/Server/Listen/Sample.antt =====
-- Concrete servers for the tests: the options, and the route table as a function.
use go_infrastructure.Prelude.{◌≡◌, refl, Option, none, some, List, GoString, eq_str, if◌then◌else◌}
use go_infrastructure.Server.Listen.{Transports}

pub record Table (Opt H : Type 0) : Type 0 where
  pub built_with : List Opt
  pub route : GoString → Option H

abbrev pub added : {H : Type 0} → GoString → H → GoString → Option H → Option H
added path h asked (some g) = some g
added path h asked none = if eq_str path asked then some h else none

pub added_lem :
    {H : Type 0} (path asked : GoString) (h : H) (o : Option H)
    → added path h asked o
      ≡ elim o [ some g ↦ some g | none ↦ if eq_str path asked then some h else none ]
added_lem path asked h (some g) = refl
added_lem path asked h none = refl

abbrev pub sample_transports : {Opt H : Type 0} → Transports Opt H
sample_transports {Opt} {H} = record {
  Server = Table Opt H;
  new_server = λ os. record { built_with = os; route = λ path. none };
  handle_func = λ path h s. record s { route = λ asked. added path h asked (s.route asked) };
  options = λ s. s.built_with;
  options-new_server = λ os. refl;
  options-handle_func = λ path h s. refl;
  route_of = λ s path. s.route path;
  route_of-new_server = λ os path. refl;
  route_of-handle_func = λ path asked h s. added_lem path asked h (s.route asked);
}
