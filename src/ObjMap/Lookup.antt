-- ===== src/ObjMap/Lookup.antt =====
-- What the probes of src/object.c find in a table that keeps its invariant.
use vek.Prelude.{
  ℕ, zero, suc, ◌^◌, ◌≤◌, ◌<◌, ◌≡◌, ◌≢◌, ◌⊎◌, inl, inr, refl, sym, ap, subst, ◌∙◌, none, some, List,
  arith,
}
use native.Mathlib.Decide.{dec_lt}
use vek.ObjMap.{Slot, empty, tombstone, live, slot, get_loop, find_loop, set_loop, insert, update}
use vek.ObjMap.Probe.{place, distance, place-distance, distance-lt}
use vek.ObjMap.Loops.{
  IsPassed, IsFull, met, IsRoom, Skips, get_loop-live, get_loop-empty, find_loop-live,
  find_loop-empty,
}
use vek.ObjMap.SetLoop.{set_loop-live, set_loop-empty}
use vek.ObjMap.Table.{IsReached, IsTable, place-injective_lt}

-- the nearest empty slot of a probe, within `n` places
pub record IsFirst {ℓ} {V : Type ℓ} (k : ℕ) (entries : List (Slot V)) (h n d : ℕ) : Type ℓ where
  pub near : d < n
  pub vacant : met k entries h d ≡ empty
  pub full : (e : ℕ) → e < d → IsFull (met k entries h e)

module _ {ℓ} {V : Type ℓ} (k : ℕ) (entries : List (Slot V)) (h : ℕ) where
  Slot-cases : (s : Slot V) → (s ≡ empty) ⊎ IsFull s
  Slot-cases empty = inl refl
  Slot-cases tombstone = inr tt
  Slot-cases (live key v) = inr tt

  IsFull-suc :
      (n : ℕ)
      → ((e : ℕ) → e < n → IsFull (met k entries h e))
      → IsFull (met k entries h n)
      → (e : ℕ) → e < suc n
      → IsFull (met k entries h e)
  IsFull-suc n f g e lt = elim (dec_lt e n) [
    | yes p ↦ f e p
    | no p ↦ let same : n ≡ e = omega arith in subst (λ x. IsFull (met k entries h x)) same g
  ]

  first :
      (n : ℕ) → ((e : ℕ) → e < n → IsFull (met k entries h e)) ⊎ ((d : ℕ) × IsFirst k entries h n d)
  first zero = inl (λ e lt. absurd (omega arith))
  first (suc n) = go (first n) (Slot-cases (met k entries h n))
    where
      go :
          ((e : ℕ) → e < n → IsFull (met k entries h e)) ⊎ ((d : ℕ) × IsFirst k entries h n d)
          → (met k entries h n ≡ empty) ⊎ IsFull (met k entries h n)
          → ((e : ℕ) → e < suc n → IsFull (met k entries h e))
            ⊎ ((d : ℕ) × IsFirst k entries h (suc n) d)
      go (inr (d, f)) _ =
          inr (d, record { near = omega (arith, f.near); vacant = f.vacant; full = f.full })
      go (inl f) (inl e) = inr (n, record { near = omega arith; vacant = e; full = f })
      go (inl f) (inr g) = inl (IsFull-suc n f g)

  -- an empty slot anywhere lies in every probe
  pub IsFirst-empty :
      (i : ℕ) → i < 2 ^ k → slot entries i ≡ empty → (d : ℕ) × IsFirst k entries h (2 ^ k) d
  IsFirst-empty i lt e = go (first (2 ^ k))
    where
      go :
          ((e : ℕ) → e < 2 ^ k → IsFull (met k entries h e))
            ⊎ ((d : ℕ) × IsFirst k entries h (2 ^ k) d)
          → (d : ℕ) × IsFirst k entries h (2 ^ k) d
      go (inr f) = f
      go (inl f) =
          let there = ap (slot entries) (place-distance k h i lt) ∙ e in
          absurd (subst IsFull there (f (distance (2 ^ k) h i) (distance-lt k h i)))

pub IsPassed-of {ℓ} :
    {V : Type ℓ} (key : ℕ) (s : Slot V) → IsFull s → ((w : V) → s ≢ live key w) → IsPassed key s
IsPassed-of key empty f n = f
IsPassed-of key tombstone f n = tt
IsPassed-of key (live j v) f n = λ e. n v (ap (λ x. live x v) e)

module _ {ℓ} {V : Type ℓ} (hash : ℕ → ℕ) (k : ℕ) (entries : List (Slot V))
    (t : IsTable hash k entries) (key : ℕ) where
  -- before the slot of the key a probe meets neither an empty slot nor the key
  pub held-Skips :
      (i : ℕ) (v : V) (e : slot entries i ≡ live key v)
      → Skips k entries key (hash key) (t.reached i key v e).d
  held-Skips i v e n lt =
      let r = t.reached i key v e in
      IsPassed-of key (met k entries (hash key) n) (r.full n lt) λ w q.
        place-injective_lt (2 ^ k) (hash key) n r.d lt r.near
          (t.distinct (place (2 ^ k) (hash key) n) i key w v q e ∙ sym r.at)

  module _ (absent : (i : ℕ) (v : V) → slot entries i ≢ live key v) where
    pub absent-Skips :
        (d : ℕ) → IsFirst k entries (hash key) (2 ^ k) d → Skips k entries key (hash key) d
    absent-Skips d f n lt = IsPassed-of key _ (f.full n lt) (absent (place (2 ^ k) (hash key) n))

module _ {ℓ} {V : Type ℓ} (hash : ℕ → ℕ) (k : ℕ) (entries : List (Slot V))
    (t : IsTable hash k entries) (key fuel : ℕ) (enough : 2 ^ k ≤ fuel) where
  module _ (i : ℕ) (v : V) (e : slot entries i ≡ live key v) where
    abbrev r : IsReached k entries (hash key) i
    r = t.reached i key v e

    pub get_held : get_loop fuel (2 ^ k) entries key (place (2 ^ k) (hash key) 0) ≡ some (some v)
    get_held =
        get_loop-live k entries key (hash key) r.d fuel (omega (arith, r.near))
          (held-Skips hash k entries t key i v e) v (ap (slot entries) r.at ∙ e)

    pub find_held : find_loop fuel (2 ^ k) entries key (place (2 ^ k) (hash key) 0) ≡ some (some i)
    find_held =
        find_loop-live k entries key (hash key) r.d fuel (omega (arith, r.near))
          (held-Skips hash k entries t key i v e) v (ap (slot entries) r.at ∙ e)
        ∙ ap (λ x. some (some x)) r.at

    pub set_held :
        set_loop fuel (2 ^ k) entries key none (place (2 ^ k) (hash key) 0) ≡ some (update i)
    set_held =
        set_loop-live k entries key (hash key) r.d 0 r.d fuel none v (omega arith)
          (omega (arith, r.near)) (λ n _ lt. held-Skips hash k entries t key i v e n lt)
          (ap (slot entries) r.at ∙ e)
        ∙ ap (λ x. some (update x)) r.at

  module _ (absent : (i : ℕ) (v : V) → slot entries i ≢ live key v) (i : ℕ) (lt : i < 2 ^ k)
      (e : slot entries i ≡ empty) where
    pub get_absent : get_loop fuel (2 ^ k) entries key (place (2 ^ k) (hash key) 0) ≡ some none
    get_absent =
        let (d, f) = IsFirst-empty k entries (hash key) i lt e in
        get_loop-empty k entries key (hash key) d fuel (omega (arith, f.near))
          (absent-Skips hash k entries t key absent d f) f.vacant

    pub find_absent : find_loop fuel (2 ^ k) entries key (place (2 ^ k) (hash key) 0) ≡ some none
    find_absent =
        let (d, f) = IsFirst-empty k entries (hash key) i lt e in
        find_loop-empty k entries key (hash key) d fuel (omega (arith, f.near))
          (absent-Skips hash k entries t key absent d f) f.vacant

    pub set_absent :
        (index : ℕ) × (set_loop fuel (2 ^ k) entries key none (place (2 ^ k) (hash key) 0)
          ≡ some (insert index))
        × IsRoom k entries (hash key) index
    set_absent =
        let (d, f) = IsFirst-empty k entries (hash key) i lt e in
        set_loop-empty k entries key (hash key) d 0 d fuel none (omega arith) f.near
          (omega (arith, f.near)) (λ n _ a. absent-Skips hash k entries t key absent d f n a) f.full
          f.vacant tt
