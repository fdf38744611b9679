-- ===== src/Version.antt =====
-- pkg/version/version.go. The JSON of an `Info` is a parameter.
use go_infrastructure.Prelude.{
  ◌≡◌, refl, inl, inr, Bool-cases, GoString, codes, is_empty, if◌then◌else◌,
}
use go_infrastructure.Server.Response.{Response, set_header, write}

pub record Info : Type 0 where
  pub name : GoString
  pub version : GoString
  pub commit : GoString
  pub build_time : GoString
  pub go : GoString

-- `runtime_version` is `runtime.Version()`.
pub with_go : GoString → Info → Info
with_go runtime_version i = if is_empty i.go then record i { go = runtime_version } else i

-- The handler that `Handler` makes, on a response.
pub handler : (Info → GoString) → GoString → Info → Response → Response
unfolding with_go
handler marshal runtime_version i =
    let body = marshal (with_go runtime_version i) in
    λ r. write body (set_header (codes "Content-Type") (codes "application/json") r)

-- A second pass changes nothing, and the build variables stay.
with_go_twice :
    (v : GoString) (i : Info)
    → (with_go v (with_go v i) ≡ with_go v i)
      × ((with_go v i).name ≡ i.name)
      × ((with_go v i).version ≡ i.version)
unfolding with_go
with_go_twice v i = elim (Bool-cases (is_empty i.go)) [
  | inl e ↦ rw e (elim (Bool-cases (is_empty v)) [
    | inl f ↦ rw f (refl, refl, refl)
    | inr f ↦ rw f (refl, refl, refl)
  ])
  | inr e ↦ rw (e, e) (refl, refl, refl)
]
