-- ===== src/Page.antt =====
-- pkg/page/page.go. An int64 is an integer `ℤ`, and each sum and product is wrapped to 64 bits; a
-- Go slice is an `Option` of a list, `none` for nil.
pub mod Bounds
pub mod Cover
mod Tests
use go_infrastructure.Prelude.{
  ℕ, Option, none, some, List, [], map, ℤ, pos, ◌-ℤ◌, ◌+ℤ◌, ◌*ℤ◌, ◌/ℤ◌, ◌%ℤ◌, ltb_ℤ, leb_ℤ, eq_ℤ,
  wrap64, not, if◌then◌else◌,
}

abbrev pub default_page_size : ℤ
default_page_size = pos 20

abbrev pub max_page_size : ℤ
max_page_size = pos 1000

pub record Param : Type 0 where
  pub page_no : ℤ
  pub page_size : ℤ

-- The three guards, in the order of the source: each reads what the one before it left.
at_least_one : Param → Param
at_least_one p = if ltb_ℤ p.page_no (pos 1) then record p { page_no = pos 1 } else p

default_size : Param → Param
default_size p = if leb_ℤ p.page_size (pos 0) then record p { page_size = default_page_size } else p

cap_size : Param → Param
cap_size p = if ltb_ℤ max_page_size p.page_size then record p { page_size = max_page_size } else p

pub normalize : Param → Param
unfolding at_least_one default_size cap_size
normalize p = cap_size (default_size (at_least_one p))

pub offset : Param → ℤ
offset p = let n = normalize p in wrap64 (wrap64 (n.page_no -ℤ pos 1) *ℤ n.page_size)

pub limit : Param → ℤ
limit p = (normalize p).page_size

pub record Result (T : Type 0) : Type 0 where
  pub total : ℤ
  pub pages : ℤ
  pub list : Option (List T)

abbrev or_empty : {T : Type 0} → Option (List T) → Option (List T)
or_empty none = some []
or_empty (some l) = some l

abbrev usable_size : ℤ → ℤ
usable_size size = if leb_ℤ size (pos 0) then pos 1 else size

pub new : {T : Type 0} → Option (List T) → ℤ → ℤ → Result T
new list total page_size =
    let size = usable_size page_size in
    let pages = wrap64 (total /ℤ size) in
    record {
      total = total;
      pages = if eq_ℤ (total %ℤ size) (pos 0) then pages else wrap64 (pages +ℤ pos 1);
      list = or_empty list;
    }

pub empty : {T : Type 0} → Result T
empty = record { total = pos 0; pages = pos 0; list = some [] }

abbrev elements : {T : Type 0} → Option (List T) → List T
elements none = []
elements (some l) = l

pub map_result : {S T : Type 0} → (S → T) → Result S → Result T
map_result f r = record { total = r.total; pages = r.pages; list = some (map f (elements r.list)) }
