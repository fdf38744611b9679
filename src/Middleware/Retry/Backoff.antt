-- ===== src/Middleware/Retry/Backoff.antt =====
-- The sleep between two attempts.
use go_infrastructure.Prelude.{
  ℕ, zero, suc, ◌+◌, ◌-◌, ◌*◌, ◌/◌, ◌%◌, ◌^◌, ◌≤◌, ◌<◌, ◌≡◌, ◌≢◌, refl, arith, none, some, ℤ, pos,
  negsuc, ◌≤ℤ◌, ◌+ℤ◌, ◌-ℤ◌, ◌*ℤ◌, ◌/ℤ◌, wrap64, wrap64-eq_of_InInt64,
}
use Prim.Native.Nat.{min}
use native.Mathlib.Nat.{mod-lt, pow-suc, one-le-pow}
use go_infrastructure.Middleware.Retry.{base_backoff, backoff_for, jittered, capped}

-- A sleep of `d` fits a base of `n` and a cap of `c`: from three to five quarters of the base.
abbrev pub Fits : ℕ → ℕ → ℕ → Type 0
Fits n c d = (1 ≤ d) × (d ≤ c) × (3 * n ≤ 4 * d) × (4 * d ≤ 5 * n)

abbrev sleep_of : ℕ → ℕ → ℕ → ℕ
sleep_of n c draw = min c (n - n / 4 + draw % (n / 2))

sleep_of-Fits : (n c draw : ℕ) → 2 ≤ n → n ≤ c → Fits n c (sleep_of n c draw)
sleep_of-Fits n c draw h k = ground (arith, mod-lt draw {m = n / 2} (omega arith))

jittered-pos :
    (n c draw : ℕ)
    → 2 ≤ n
    → n ≤ c
    → c < 2 ^ 62
    → jittered (pos n) (pos c) draw ≡ some (pos (sleep_of n c draw))
unfolding jittered ◌/ℤ◌ ◌-ℤ◌ ◌+ℤ◌ wrap64
jittered-pos n c draw h k t = ground (arith, mod-lt draw {m = n / 2} (omega arith))

mul_pos : (a b : ℕ) → pos a *ℤ pos b ≡ pos (a * b)
unfolding ◌*ℤ◌
mul_pos a b = ground arith

wrap64-ne_one : (i k : ℕ) → 2 ≤ i → i < 2 ^ 63 → wrap64 (pos (i * 2 ^ k)) ≢ pos 1
unfolding wrap64
wrap64-ne_one i zero h t = ground arith
wrap64-ne_one i (suc k) h t = rw (pow-suc 2 k) (ground arith)

capped_cases :
    (d : ℤ) (c : ℕ) → d ≢ pos 1 → 2 ≤ c → (n : ℕ) × (capped d (pos c) ≡ pos n) × (2 ≤ n) × (n ≤ c)
capped_cases (negsuc m) c h k = (c, ground arith, k, omega arith)
capped_cases (pos zero) c h k = (c, ground arith, k, omega arith)
capped_cases (pos (suc zero)) c h k = absurd (h refl)
capped_cases (pos (suc (suc m))) c h k =
    (min (suc (suc m)) c, ground arith, omega arith, omega arith)

base_cases :
    (attempt i c : ℕ)
    → 2 ≤ i
    → i < 2 ^ 63
    → 2 ≤ c
    → (n : ℕ) × (base_backoff attempt (pos i) (pos c) ≡ pos n) × (2 ≤ n) × (n ≤ c)
unfolding base_backoff
base_cases attempt i c h t k =
    rw (mul_pos i (2 ^ (attempt - 1))) (capped_cases _ c (wrap64-ne_one i _ h t) k)

capped-pos : (n c : ℕ) → 1 ≤ n → capped (pos n) (pos c) ≡ pos (min n c)
capped-pos n c h = ground arith

shift_pos : (i k : ℕ) → 1 ≤ i → 1 ≤ i * 2 ^ k
shift_pos i k h = grind (arith, one-le-pow k 2)

base-exact :
    (attempt i c : ℕ)
    → 1 ≤ i
    → i * 2 ^ (attempt - 1) < 2 ^ 63
    → base_backoff attempt (pos i) (pos c) ≡ pos (min (i * 2 ^ (attempt - 1)) c)
unfolding base_backoff
base-exact attempt i c h t = rw (mul_pos i (2 ^ (attempt - 1))) (
    rw (wrap64-eq_of_InInt64 (pos (i * 2 ^ (attempt - 1))) (omega arith))
      (capped-pos _ c (shift_pos i (attempt - 1) h)))

step_two : (i k c : ℕ) → 2 ≤ i → 2 ≤ c → 2 ≤ min (i * 2 ^ k) c
step_two i k c h t = grind (arith, one-le-pow k 2)

capped-le : (d cap : ℤ) → cap ≤ℤ pos 1 → capped d cap ≤ℤ pos 1
capped-le d cap h = ground arith

jittered-none : (d cap : ℤ) (draw : ℕ) → d ≤ℤ pos 1 → jittered d cap draw ≡ none
unfolding jittered ◌/ℤ◌
jittered-none (negsuc m) cap draw h = ground arith
jittered-none (pos m) cap draw h = ground arith

-- With an initial backoff and a cap of at least 2 ns the sleep never panics, whatever the attempt
-- and the draw, and lies between 1 ns and the cap. (A shift that leaves int64 counts as the cap.)
pub backoff_for_bounds :
    (attempt i c draw : ℕ)
    → 2 ≤ i
    → i < 2 ^ 63
    → 2 ≤ c
    → c < 2 ^ 62
    → (d : ℕ) × (backoff_for attempt (pos i) (pos c) draw ≡ some (pos d)) × (1 ≤ d) × (d ≤ c)
unfolding backoff_for
backoff_for_bounds attempt i c draw h t k u =
    let (n, e, two, le) = base_cases attempt i c h t k in
    let fits = sleep_of-Fits n c draw two le in
    (sleep_of n c draw, rw e (jittered-pos n c draw two le u), fits.0, fits.1)

-- While initial * 2 ^ (attempt - 1) fits in an int64, the sleep is within a quarter of the documented
-- step, the smaller of that product and the cap.
pub backoff_for_schedule :
    (attempt i c draw : ℕ)
    → 2 ≤ i
    → 2 ≤ c
    → c < 2 ^ 62
    → i * 2 ^ (attempt - 1) < 2 ^ 63
    → (d : ℕ) × (backoff_for attempt (pos i) (pos c) draw ≡ some (pos d))
      × Fits (min (i * 2 ^ (attempt - 1)) c) c d
unfolding backoff_for
backoff_for_schedule attempt i c draw h k u t =
    let n = min (i * 2 ^ (attempt - 1)) c in
    let two : 2 ≤ n = step_two i (attempt - 1) c h k in
    (
      sleep_of n c draw,
      rw (base-exact attempt i c (omega arith) t) (jittered-pos n c draw two (omega arith) u),
      sleep_of-Fits n c draw two (omega arith),
    )

-- With a cap of at most 1 ns, which `WithMaxBackoff` accepts, every backoff panics: `rand.Int63n`
-- is called at a number that is not positive.
pub backoff_for_panics :
    (attempt : ℕ) (initial cap : ℤ) (draw : ℕ)
    → cap ≤ℤ pos 1
    → backoff_for attempt initial cap draw ≡ none
unfolding backoff_for base_backoff
backoff_for_panics attempt initial cap draw h =
    jittered-none _ cap draw (capped-le (wrap64 (initial *ℤ pos (2 ^ (attempt - 1)))) cap h)
