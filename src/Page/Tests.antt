-- ===== src/Page/Tests.antt =====
-- The page theorems at concrete requests.
use Prim.Native.Nat.{max, min}
use go_infrastructure.Prelude.{
  ℕ, ◌+◌, ◌-◌, ◌*◌, ◌/◌, ◌≤◌, ◌<◌, ◌≡◌, ◌≢◌, ◌↔◌, refl, arith, Option, none, some, List, [], ◌∷◌,
  map, pos, negsuc, ◌≤ℤ◌, ◌<ℤ◌, ◌+ℤ◌, pos_part, wrap64, ◌-ℤ◌, ◌*ℤ◌, ◌^◌,
}
use mathlib.Core.Option
use go_infrastructure.Page.{Param, normalize, offset, limit, new, map_result}
use go_infrastructure.Page.Bounds.{
  IsNormal, normalize_lem, offset-exact, offset-exact_iff, offset_wraps,
}
use go_infrastructure.Page.Cover.{request, new_lem, row-on_one_page, map_result-new}

abbrev third : Param
third = record { page_no = pos 3; page_size = pos 50 }

abbrev wild : Param
wild = record { page_no = negsuc 6; page_size = pos 5000 }

wild_normalized : normalize wild ≡ record { page_no = pos 1; page_size = pos 1000 }
unfolding normalize
wild_normalized = refl

normalize_lem_run :
    IsNormal (normalize wild)
    × (normalize (normalize wild) ≡ normalize wild)
    × ((normalize wild).page_no ≡ pos (max 1 0))
    × (limit wild ≡ pos (min 1000 5000))
normalize_lem_run = normalize_lem wild

offset-exact_run :
    offset third ≡ pos ((pos_part (normalize third).page_no - 1) * pos_part (limit third))
offset-exact_run = offset-exact third (omega arith)

offset-third : offset third ≡ pos 100
unfolding offset normalize wrap64 ◌-ℤ◌ ◌*ℤ◌
offset-third = refl

abbrev far : Param
far = record { page_no = pos (2 ^ 61 + 1); page_size = pos 5000 }

offset_wraps_run : offset far ≡ pos 0
offset_wraps_run = offset_wraps far (omega arith) refl

offset-exact_iff_example :
    (offset far ≡ pos ((pos_part (normalize far).page_no - 1) * pos_part (limit far)))
    ↔ ((pos_part (normalize far).page_no - 1) * pos_part (limit far) < 2 ^ 63)
offset-exact_iff_example = offset-exact_iff far (omega arith)

abbrev rows : Option (List ℕ)
rows = some (1 ∷ 2 ∷ [])

new_lem_run :
    (k : ℕ) × ((new rows (pos 41) (pos 20)).pages ≡ pos k)
    × (41 ≤ k * 20)
    × (k * 20 < 41 + 20)
    × ((new rows (pos 41) (pos 20)).list ≢ none)
new_lem_run = new_lem rows 41 20 (omega arith) (omega arith)

row-on_one_page_example :
    (((offset (request 3 20) ≤ℤ pos 40) × (pos 40 <ℤ offset (request 3 20) +ℤ limit (request 3 20)))
      ↔ (3 ≡ 40 / 20 + 1))
    × (pos (40 / 20 + 1) ≤ℤ (new rows (pos 41) (pos 20)).pages)
row-on_one_page_example =
    row-on_one_page rows 41 20 40 3 (omega arith) (omega arith) (omega arith) (omega arith)
      (omega arith) (omega arith)

map_result-new_run :
    map_result (λ x. x + 1) (new rows (pos 41) (pos 20))
    ≡ new (Option.map (map (λ x. x + 1)) rows) (pos 41) (pos 20)
map_result-new_run = map_result-new (λ x. x + 1) rows (pos 41) (pos 20)
