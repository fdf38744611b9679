-- ===== src/Page/Cover.antt =====
-- How the page count of a result and the offsets of its pages divide the rows.
use mathlib.Core.Option
use native.Mathlib.Nat.{div-lt_iff_lt-mul, div-add-mod, div-add-mod', mod-lt}
use go_infrastructure.Prelude.{
  ℕ, zero, suc, ◌+◌, ◌-◌, ◌*◌, ◌/◌, ◌%◌, ◌≤◌, ◌<◌, ◌^◌, ◌≡◌, ◌≢◌, ◌↔◌, refl, ap, ◌∙◌, arith, Option,
  none, some, List, map, ℤ, pos, ◌≤ℤ◌, ◌<ℤ◌, ◌+ℤ◌, ◌/ℤ◌, ◌%ℤ◌, wrap64, if◌then◌else◌, ◌==◌,
}
use go_infrastructure.Page.{Param, normalize, offset, limit, new, map_result}
use go_infrastructure.Page.Bounds.{safe_page, offset-exact}

abbrev ceiling : ℕ → ℕ → ℕ
ceiling total size = if total % size == 0 then total / size else total / size + 1

ceiling_bounds :
    (total size : ℕ)
    → 1 ≤ size
    → (total ≤ ceiling total size * size) × (ceiling total size * size < total + size)
ceiling_bounds total size h = grind (arith, div-add-mod total size, mod-lt)

ceiling-le : (total size : ℕ) → 1 ≤ size → ceiling total size ≤ total
ceiling-le total zero h = absurd (omega arith)
ceiling-le total (suc zero) h = ground arith
ceiling-le total (suc (suc s)) h = grind (arith, div-add-mod total (suc (suc s)), div-le_two)
  where
    div-le_two : 2 * (total / suc (suc s)) ≤ suc (suc s) * (total / suc (suc s))
    div-le_two = grind arith

new-pages :
    {T : Type 0} (l : Option (List T)) (total s : ℕ)
    → total < 2 ^ 63
    → (new l (pos total) (pos (suc s))).pages ≡ pos (ceiling total (suc s))
unfolding new ◌/ℤ◌ ◌%ℤ◌ ◌+ℤ◌ wrap64
new-pages l total s k = ground (arith, ceiling-le total (suc s))

new-list : {T : Type 0} (l : Option (List T)) (total size : ℤ) → (new l total size).list ≢ none
unfolding new
new-list none total size = cc
new-list (some l) total size = cc

-- For a total that is not negative and a positive page size the page count is the rounded-up
-- quotient: that many pages hold every row, and one page fewer does not. The list of the result is
-- never nil.
pub new_lem :
    {T : Type 0} (l : Option (List T)) (total size : ℕ)
    → 1 ≤ size
    → total < 2 ^ 63
    → (k : ℕ) × ((new l (pos total) (pos size)).pages ≡ pos k)
      × (total ≤ k * size)
      × (k * size < total + size)
      × ((new l (pos total) (pos size)).list ≢ none)
new_lem l total zero h k = absurd (omega arith)
new_lem l total (suc s) h k =
    let (enough, least) = ceiling_bounds total (suc s) h in
    (ceiling total (suc s), new-pages l total s k, enough, least, new-list l _ _)

abbrev pub request : ℕ → ℕ → Param
request n size = record { page_no = pos n; page_size = pos size }

offset-request :
    (n size : ℕ)
    → 1 ≤ n
    → n ≤ safe_page
    → 1 ≤ size
    → size ≤ 1000
    → offset (request n size) ≡ pos ((n - 1) * size)
unfolding offset normalize
offset-request zero size h k h' k' = absurd (omega arith)
offset-request (suc n) zero h k h' k' = absurd (omega arith)
offset-request (suc n) (suc s) h k h' k' =
    offset-exact (request (suc n) (suc s)) (omega arith)
    ∙ ap (λ t. pos t) (unfold normalize limit in ground arith)

limit-request : (n size : ℕ) → 1 ≤ size → size ≤ 1000 → limit (request n size) ≡ pos size
unfolding limit normalize
limit-request n size h k = ground arith

window_eq : (m i s : ℕ) → (m * s ≤ i) × (i < m * s + s) → m ≡ i / s
window_eq m i s w = grind (arith, div-add-mod' i s, mod-lt)

quotient_lt : (total i s : ℕ) → 1 ≤ s → i < total → i / s < ceiling total s
quotient_lt total i s h r = (div-lt_iff_lt-mul h).1 (omega (arith, (ceiling_bounds total s h).0))

-- Rows [m * s, m * s + s) are those with quotient m.
window_iff : (m i s : ℕ) → 1 ≤ s → ((m * s ≤ i) × (i < m * s + s)) ↔ (m ≡ i / s)
window_iff m i s h = (λ w. window_eq m i s w, λ e. ground (arith, div-add-mod' i s, mod-lt i h))

-- Under a page size from 1 to 1000 and at most 9223372036854775 rows, a row index lies in the
-- window [offset, offset + limit) of exactly one of the pages up to 9223372036854775, the page
-- `i / size + 1`; and that page is within the page count of the result.
pub row-on_one_page :
    {T : Type 0} (l : Option (List T)) (total size i n : ℕ)
    → 1 ≤ size
    → size ≤ 1000
    → total ≤ safe_page
    → i < total
    → 1 ≤ n
    → n ≤ safe_page
    → (((offset (request n size) ≤ℤ pos i)
          × (pos i <ℤ offset (request n size) +ℤ limit (request n size)))
        ↔ (n ≡ i / size + 1))
      × (pos (i / size + 1) ≤ℤ (new l (pos total) (pos size)).pages)
unfolding ◌+ℤ◌
row-on_one_page l total zero i n h k t r h' k' = absurd (omega arith)
row-on_one_page l total (suc s) i n h k t r h' k' =
    let w = window_iff (n - 1) i (suc s) h in
    (
      rw (offset-request n (suc s) h' k' h k, limit-request n (suc s) h k)
          (λ p. ground (arith, w.0 (ground arith)), λ e. ground (arith, w.1)),
      rw (new-pages l total s (omega arith)) (omega (arith, quotient_lt total i (suc s) h r)),
    )

-- Mapping a result is the same as building it from the mapped rows.
pub map_result-new :
    {S T : Type 0} (f : S → T) (l : Option (List S)) (total size : ℤ)
    → map_result f (new l total size) ≡ new (Option.map (map f) l) total size
unfolding map_result new
map_result-new f none total size = refl
map_result-new f (some l) total size = refl
