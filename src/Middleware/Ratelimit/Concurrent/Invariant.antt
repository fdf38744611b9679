-- ===== src/Middleware/Ratelimit/Concurrent/Invariant.antt =====
-- The mutex, and the map of limiters under it.
use go_infrastructure.Prelude.{
  ℕ, suc, ◌≡◌, ◌≢◌, ◌<◌, refl, sym, ◌∙◌, arith, inl, inr, Bool-cases, Option, none, some, List, ℤ,
  GoString, lookup, insert, lookup-insert, eq_str, eq_str_iff, eq_str_refl, ◌⊎◌, ◌==◌,
}
use go_infrastructure.Middleware.Ratelimit.{Net}
use go_infrastructure.Middleware.Ratelimit.Concurrent.{
  update, Pc, idle, waits, locked, missed, found, free, System, Step, ticks, calls, locks, hits,
  misses, makes, unlocks, goes, Event, Asks, asks, started,
}

-- A goroutine between `Lock` and `Unlock` is the one that the mutex names.
abbrev pub Owns : Option ℕ → ℕ → Pc → Type 0
Owns mu i (locked key) = mu ≡ some i
Owns mu i (missed key) = mu ≡ some i
Owns mu i (found key a) = mu ≡ some i
Owns mu i _ = Unit {0}

-- What a goroutine has learnt of the map is still so.
abbrev pub Knows : List (GoString × ℕ) → Pc → Type 0
Knows map (missed key) = lookup key map ≡ none
Knows map (found key a) = lookup key map ≡ some a
Knows map (free key a) = lookup key map ≡ some a
Knows map _ = Unit {0}

pub record IsSafe {N : Net} (s : System N) : Type 0 where
  pub owns : (i : ℕ) → Owns s.mu i (s.pc i)
  pub knows : (i : ℕ) → Knows s.map (s.pc i)
  pub below : (k : GoString) (a : ℕ) → lookup k s.map ≡ some a → a < s.next
  pub apart : (k j : GoString) (a : ℕ) → lookup k s.map ≡ some a → lookup j s.map ≡ some a → k ≡ j

module _ {A : Type 0} (f : ℕ → A) (i : ℕ) (a : A) where
  -- A property of every place after one is updated.
  pub update-all :
      (Q : ℕ → A → Type 0) → Q i a → ((j : ℕ) → j ≢ i → Q j (f j)) → (j : ℕ) → Q j (update f i a j)
  update-all Q here there j = elim (Bool-cases (j == i)) [
    | inl e ↦ let same : j ≡ i = ground arith in rw e (rw same here)
    | inr n ↦ rw n (there j (ground arith))
  ]

-- Only the owner of the mutex cares whose it is.
Owns-other : (mu mu' : Option ℕ) (j : ℕ) (p : Pc) → mu ≢ some j → Owns mu j p → Owns mu' j p
Owns-other mu mu' j idle n h = tt
Owns-other mu mu' j (waits key) n h = tt
Owns-other mu mu' j (locked key) n h = absurd (n h)
Owns-other mu mu' j (missed key) n h = absurd (n h)
Owns-other mu mu' j (found key a) n h = absurd (n h)
Owns-other mu mu' j (free key a) n h = tt

-- A new entry of the map leaves what the goroutines that do not own the mutex know.
Knows-other :
    (map : List (GoString × ℕ)) (mu : Option ℕ) (key : GoString) (a j : ℕ) (p : Pc)
    → lookup key map ≡ none
    → mu ≢ some j
    → Owns mu j p
    → Knows map p
    → Knows (insert key a map) p
Knows-other map mu key a j idle e n h k = tt
Knows-other map mu key a j (waits key') e n h k = tt
Knows-other map mu key a j (locked key') e n h k = tt
Knows-other map mu key a j (missed key') e n h k = absurd (n h)
Knows-other map mu key a j (found key' b) e n h k = absurd (n h)
Knows-other map mu key a j (free key' b) e n h k =
    ground (arith, lookup-insert key key' a map, eq_str_iff key key')

-- An entry of a map with one more entry is the new one or an old one.
entry_of :
    (map : List (GoString × ℕ)) (key k : GoString) (b a : ℕ)
    → lookup k (insert key b map) ≡ some a
    → ((k ≡ key) × (a ≡ b)) ⊎ (lookup k map ≡ some a)
entry_of map key k b a h = elim (Bool-cases (eq_str key k)) [
  | inl e ↦
      let new : some b ≡ some a = ground (arith, lookup-insert key k b map) in
      inl (sym ((eq_str_iff key k).0 e), cc)
  | inr e ↦ inr (ground (arith, lookup-insert key k b map))
]

module _ {N : Net} (rps burst : ℤ) {s : System N} (safe : IsSafe s) (i : ℕ) where
  Owns-now : (p : Pc) → s.pc i ≡ p → Owns s.mu i p
  Owns-now p e = rw e at (safe.owns i)

  pub Knows-now : (p : Pc) → s.pc i ≡ p → Knows s.map p
  Knows-now p e = rw e at (safe.knows i)

  -- Another goroutine is not the owner where this one is.
  not_other : (j : ℕ) → s.mu ≡ some i → j ≢ i → s.mu ≢ some j
  not_other j e n h = ground arith

  -- A step that moves the goroutine alone.
  goes-IsSafe : (p : Pc) → Owns s.mu i p → Knows s.map p → IsSafe (goes N rps burst s i p)
  goes-IsSafe p o k = record {
    owns = update-all s.pc i p (λ j q. Owns s.mu j q) o (λ j n. safe.owns j);
    knows = update-all s.pc i p (λ j q. Knows s.map q) k (λ j n. safe.knows j);
    below = safe.below;
    apart = safe.apart;
  }

  locks-IsSafe :
      (key : GoString)
      → s.mu ≡ none
      → IsSafe (record s { mu = some i; pc = update s.pc i (locked key) })
  locks-IsSafe key e = record {
    owns =
        update-all s.pc i (locked key) (λ j q. Owns (some i) j q) refl
          (λ j n. Owns-other s.mu (some i) j (s.pc j) (λ h. ground arith) (safe.owns j));
    knows = update-all s.pc i (locked key) (λ j q. Knows s.map q) tt (λ j n. safe.knows j);
    below = safe.below;
    apart = safe.apart;
  }

  unlocks-IsSafe :
      (key : GoString) (a : ℕ)
      → s.pc i ≡ found key a
      → IsSafe (record s { mu = none; pc = update s.pc i (free key a) })
  unlocks-IsSafe key a e = record {
    owns =
        update-all s.pc i (free key a) (λ j q. Owns none j q) tt
          (λ j n.
            Owns-other s.mu none j (s.pc j) (not_other j (Owns-now (found key a) e) n)
              (safe.owns j));
    knows =
        update-all s.pc i (free key a) (λ j q. Knows s.map q) (Knows-now (found key a) e)
          (λ j n. safe.knows j);
    below = safe.below;
    apart = safe.apart;
  }

  below_new :
      (key k : GoString) (a : ℕ) → lookup k (insert key s.next s.map) ≡ some a → a < suc s.next
  below_new key k a h = elim (entry_of s.map key k s.next a h) [
    | inl (e, new) ↦ omega arith
    | inr old ↦ omega (arith, safe.below k a old)
  ]

  apart_new :
      (key k j : GoString) (a : ℕ)
      → lookup k (insert key s.next s.map) ≡ some a
      → lookup j (insert key s.next s.map) ≡ some a
      → k ≡ j
  apart_new key k j a h h' = elim (entry_of s.map key k s.next a h) [
    | inl (e, new) ↦ elim (entry_of s.map key j s.next a h') [
      | inl (e', new') ↦ e ∙ sym e'
      | inr old' ↦ absurd (omega (arith, safe.below j a old'))
    ]
    | inr old ↦ elim (entry_of s.map key j s.next a h') [
      | inl (e', new') ↦ absurd (omega (arith, safe.below k a old))
      | inr old' ↦ safe.apart k j a old old'
    ]
  ]

  makes-IsSafe :
      (key : GoString)
      → s.pc i ≡ missed key
      → IsSafe (record s {
        heap = update s.heap s.next (N.new_limiter rps burst);
        next = suc s.next;
        map = insert key s.next s.map;
        pc = update s.pc i (found key s.next);
      })
  makes-IsSafe key e =
      let mine = Owns-now (missed key) e in
      record {
        owns =
            update-all s.pc i (found key s.next) (λ j q. Owns s.mu j q) mine (λ j n. safe.owns j);
        knows =
            update-all s.pc i (found key s.next) (λ j q. Knows (insert key s.next s.map) q)
              (ground (arith, lookup-insert key key s.next s.map, eq_str_refl key))
              (λ j n.
                Knows-other s.map s.mu key s.next j (s.pc j) (Knows-now (missed key) e)
                  (not_other j mine n) (safe.owns j) (safe.knows j));
        below = below_new key;
        apart = apart_new key;
      }

  asks-IsSafe : (heap : ℕ → N.Limiter) → IsSafe (record s { heap = heap; pc = update s.pc i idle })
  asks-IsSafe heap = record {
    owns = update-all s.pc i idle (λ j q. Owns s.mu j q) tt (λ j n. safe.owns j);
    knows = update-all s.pc i idle (λ j q. Knows s.map q) tt (λ j n. safe.knows j);
    below = safe.below;
    apart = safe.apart;
  }

-- Every step keeps the bucket safe.
pub Step-IsSafe :
    {N : Net} (rps burst : ℤ) (s u : System N) → IsSafe s → Step N rps burst s u → IsSafe u
Step-IsSafe rps burst s u safe (ticks d) = record {
  owns = safe.owns;
  knows = safe.knows;
  below = safe.below;
  apart = safe.apart;
}
Step-IsSafe rps burst s u safe (calls i key e) = goes-IsSafe rps burst safe i (waits key) tt tt
Step-IsSafe rps burst s u safe (locks i key e n) = locks-IsSafe rps burst safe i key n
Step-IsSafe rps burst s u safe (hits i key a e h) =
    goes-IsSafe rps burst safe i (found key a) (Owns-now rps burst safe i (locked key) e) h
Step-IsSafe rps burst s u safe (misses i key e h) =
    goes-IsSafe rps burst safe i (missed key) (Owns-now rps burst safe i (locked key) e) h
Step-IsSafe rps burst s u safe (makes i key e) = makes-IsSafe rps burst safe i key e
Step-IsSafe rps burst s u safe (unlocks i key a e) = unlocks-IsSafe rps burst safe i key a e

pub Asks-IsSafe :
    {N : Net} (rps burst : ℤ) (s u : System N) (e : Event)
    → IsSafe s
    → Asks N rps burst s e u
    → IsSafe u
Asks-IsSafe rps burst s u e safe (asks i key a p) = asks-IsSafe rps burst safe i _

pub started-IsSafe : (N : Net) (rps burst : ℤ) (t : ℕ) → IsSafe (started N rps burst t)
unfolding lookup
started-IsSafe N rps burst t = record {
  owns = λ i. tt;
  knows = λ i. tt;
  below = λ k a h. cc;
  apart = λ k j a h h'. cc;
}
