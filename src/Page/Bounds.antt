-- ===== src/Page/Bounds.antt =====
-- What a normalized page request guarantees to a query.
use Prim.Native.Nat.{max, min}
use go_infrastructure.Prelude.{
  ℕ, zero, suc, ◌∙◌, ap, ◌+◌, ◌-◌, ◌*◌, ◌≤◌, ◌<◌, ◌^◌, ◌≡◌, arith, ℤ, pos, negsuc, ◌↔◌, ◌≤ℤ◌, ◌-ℤ◌,
  ◌*ℤ◌, wrap64, pos_part, leb_ℤ, if◌then◌else◌,
}
use go_infrastructure.Page.{Param, normalize, offset, limit, max_page_size}

-- A page request whose fields a query can use as they are.
pub record IsNormal (p : Param) : Type 0 where
  pub first : pos 1 ≤ℤ p.page_no
  pub nonempty : pos 1 ≤ℤ p.page_size
  pub capped : p.page_size ≤ℤ max_page_size

pub normalize-IsNormal : (p : Param) → IsNormal (normalize p)
unfolding normalize
normalize-IsNormal p = ground arith

pub normalize-eq_of_IsNormal : (p : Param) → IsNormal p → normalize p ≡ p
unfolding normalize
normalize-eq_of_IsNormal p h = ground arith

-- Every request is brought to a normal one, a second pass changes nothing, the page number is the
-- greater of the given one and 1, and the size is 20 where the given one is not positive, else the
-- smaller of the given one and 1000.
pub normalize_lem :
    (p : Param)
    → IsNormal (normalize p)
      × (normalize (normalize p) ≡ normalize p)
      × ((normalize p).page_no ≡ pos (max 1 (pos_part p.page_no)))
      × (limit p
          ≡ (if leb_ℤ p.page_size (pos 0) then pos 20 else pos (min 1000 (pos_part p.page_size))))
unfolding normalize limit
normalize_lem p = (
  normalize-IsNormal p,
  normalize-eq_of_IsNormal _ (normalize-IsNormal p),
  ground arith,
  ground arith,
)

abbrev pub safe_page : ℕ
safe_page = 9223372036854775

product_fits : (a n : ℕ) → a < safe_page → n ≤ 1000 → a * n < 2 ^ 63
product_fits a n h k = grind arith

pub exact_product :
    (a n : ℕ)
    → a < safe_page
    → n ≤ 1000
    → wrap64 (wrap64 (pos (suc a) -ℤ pos 1) *ℤ pos n) ≡ pos (a * n)
unfolding wrap64 ◌-ℤ◌ ◌*ℤ◌
exact_product a n h k = ground (arith, product_fits a n h k)

exact_offset :
    (no size : ℤ)
    → pos 1 ≤ℤ no
    → pos 1 ≤ℤ size
    → no ≤ℤ pos safe_page
    → size ≤ℤ max_page_size
    → wrap64 (wrap64 (no -ℤ pos 1) *ℤ size) ≡ pos ((pos_part no - 1) * pos_part size)
exact_offset (pos zero) size h h' k k' = absurd (omega arith)
exact_offset (negsuc a) size h h' k k' = absurd (omega arith)
exact_offset (pos (suc a)) (negsuc n) h h' k k' = absurd (omega arith)
exact_offset (pos (suc a)) (pos n) h h' k k' =
    exact_product a n (omega arith) (omega arith) ∙ ap (λ (t : ℕ). pos (t * n)) (omega arith)

-- Up to page 9223372036854775 the offset is the exact product of the number of pages before and
-- the page size: no int64 operation wraps.
pub offset-exact :
    (p : Param)
    → p.page_no ≤ℤ pos safe_page
    → offset p ≡ pos ((pos_part (normalize p).page_no - 1) * pos_part (limit p))
unfolding offset limit
offset-exact p h =
    let n = normalize-IsNormal p in
    exact_offset _ _ n.first n.nonempty (unfold normalize in ground arith) n.capped

-- Beyond it the offset may wrap: at page 2 ^ 61 + 1 and the largest page size it is 0.
pub offset_wraps :
    (p : Param) → 1000 ≤ pos_part p.page_size → p.page_no ≡ pos (2 ^ 61 + 1) → offset p ≡ pos 0
unfolding offset normalize wrap64 ◌-ℤ◌ ◌*ℤ◌
offset_wraps p h e = ground arith

wrap64-pos_iff : (m : ℕ) → (wrap64 (pos m) ≡ pos m) ↔ (m < 2 ^ 63)
unfolding wrap64
wrap64-pos_iff m = ground arith

-- The pages before a page number that an int64 holds, with no wrap.
pages_before : (a : ℕ) → a < 2 ^ 63 → wrap64 (pos (suc a) -ℤ pos 1) ≡ pos a
unfolding wrap64 ◌-ℤ◌
pages_before a h = ground arith

pos_product : (a n : ℕ) → pos a *ℤ pos n ≡ pos (a * n)
unfolding ◌*ℤ◌
pos_product a n = ground arith

offset_of :
    (no size : ℤ)
    → pos 1 ≤ℤ no
    → pos 1 ≤ℤ size
    → no ≤ℤ pos (2 ^ 63 - 1)
    → wrap64 (wrap64 (no -ℤ pos 1) *ℤ size) ≡ wrap64 (pos ((pos_part no - 1) * pos_part size))
offset_of (pos zero) size h h' k = absurd (omega arith)
offset_of (negsuc a) size h h' k = absurd (omega arith)
offset_of (pos (suc a)) (negsuc n) h h' k = absurd (omega arith)
offset_of (pos (suc a)) (pos n) h h' k =
    ap (λ (x : ℤ). wrap64 (x *ℤ pos n)) (pages_before a (omega arith))
    ∙ ap wrap64 (pos_product a n ∙ ap (λ (t : ℕ). pos (t * n)) (omega arith))

-- For a page number that an int64 holds, the offset is the product of the number of pages before
-- and the page size exactly where that product is below 2 ^ 63.
pub offset-exact_iff :
    (p : Param)
    → p.page_no ≤ℤ pos (2 ^ 63 - 1)
    → (offset p ≡ pos ((pos_part (normalize p).page_no - 1) * pos_part (limit p)))
      ↔ ((pos_part (normalize p).page_no - 1) * pos_part (limit p) < 2 ^ 63)
unfolding offset limit
offset-exact_iff p h =
    let n = normalize-IsNormal p in
    rw (offset_of _ _ n.first n.nonempty (unfold normalize in ground arith)) (wrap64-pos_iff _)
