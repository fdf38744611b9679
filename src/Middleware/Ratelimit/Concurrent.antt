-- ===== src/Middleware/Ratelimit/Concurrent.antt =====
-- pkg/middleware/ratelimit/ratelimit.go: `allow` as the steps of goroutines over one bucket. The map
-- has references to limiters, as in the source; the mutex guards the map alone, and `Allow` of a
-- limiter runs outside of it. A call of `Allow` of x/time/rate, which has a lock of its own, is one
-- step.
pub mod Invariant
pub mod Linear
pub mod Bound
pub mod Progress
mod Tests
use go_infrastructure.Prelude.{
  ℕ, suc, ◌+◌, ◌≡◌, Bool, Option, none, some, List, [], ◌∷◌, ℤ, GoString, lookup, insert, ◌==◌,
  if◌then◌else◌,
}
use go_infrastructure.Middleware.Ratelimit.{Net}

abbrev pub update {ℓ} : {A : Type ℓ} → (ℕ → A) → ℕ → A → ℕ → A
update f i a j = if j == i then a else f j

-- Where a goroutine stands in a call for a key: before it, at the lock, with the lock before and
-- after the lookup, and past the lock with a limiter.
pub data Pc : Type 0 where
  idle : Pc
  waits locked missed : GoString → Pc
  found free : GoString → ℕ → Pc

pub record System (N : Net) : Type 0 where
  pub heap : ℕ → N.Limiter
  pub next : ℕ
  pub map : List (GoString × ℕ)
  pub mu : Option ℕ
  pub clock : ℕ
  pub pc : ℕ → Pc

-- A call of `Allow`: its time, its key, its answer.
pub record Event : Type 0 where
  pub time : ℕ
  pub key : GoString
  pub ok : Bool

module _ (N : Net) (rps burst : ℤ) where
  open N use {new_limiter, allow_at}

  abbrev pub goes : System N → ℕ → Pc → System N
  goes s i p = record s { pc = update s.pc i p }

  -- A step of the goroutine `i`, or of time, in which no limiter is asked.
  pub data Step (s : System N) : System N → Type 0 where
    ticks : (d : ℕ) → Step s (record s { clock = s.clock + d })
    calls : (i : ℕ) (key : GoString) → s.pc i ≡ idle → Step s (goes s i (waits key))
    locks :
        (i : ℕ) (key : GoString)
        → s.pc i ≡ waits key
        → s.mu ≡ none
        → Step s (record s { mu = some i; pc = update s.pc i (locked key) })
    hits :
        (i : ℕ) (key : GoString) (a : ℕ)
        → s.pc i ≡ locked key
        → lookup key s.map ≡ some a
        → Step s (goes s i (found key a))
    misses :
        (i : ℕ) (key : GoString)
        → s.pc i ≡ locked key
        → lookup key s.map ≡ none
        → Step s (goes s i (missed key))
    makes :
        (i : ℕ) (key : GoString)
        → s.pc i ≡ missed key
        → Step s (record s {
          heap = update s.heap s.next (new_limiter rps burst);
          next = suc s.next;
          map = insert key s.next s.map;
          pc = update s.pc i (found key s.next);
        })
    unlocks :
        (i : ℕ) (key : GoString) (a : ℕ)
        → s.pc i ≡ found key a
        → Step s (record s { mu = none; pc = update s.pc i (free key a) })

  -- A step in which a goroutine asks its limiter and returns.
  pub data Asks (s : System N) : Event → System N → Type 0 where
    asks :
        (i : ℕ) (key : GoString) (a : ℕ)
        → s.pc i ≡ free key a
        → Asks s
            (record { time = s.clock; key = key; ok = (allow_at s.clock (s.heap a)).0 })
            (record s {
              heap = update s.heap a (allow_at s.clock (s.heap a)).1;
              pc = update s.pc i idle;
            })

  -- An interleaving, with the calls of `Allow` in their order.
  pub data Run : System N → List Event → System N → Type 0 where
    done : {s : System N} → Run s [] s
    steps : {s u t : System N} {es : List Event} → Step s u → Run u es t → Run s es t
    answers :
        {s u t : System N} {e : Event} {es : List Event}
        → Asks s e u
        → Run u es t
        → Run s (e ∷ es) t

  -- A new bucket at a time, with every goroutine outside. The heap has no limiter that is used.
  abbrev pub started : ℕ → System N
  started t = record {
    heap = λ a. new_limiter rps burst;
    next = 0;
    map = [];
    mu = none;
    clock = t;
    pc = λ i. idle;
  }
