-- ===== src/ObjMap/Writes.antt =====
-- The three writes into a table of src/object.c: a new key, a new value, a tombstone.
use vek.Prelude.{
  ℕ, ◌^◌, ◌<◌, ◌≡◌, ◌≢◌, ◌⊎◌, inl, inr, sym, subst₂, ◌∙◌, List, arith, ◌==◌, length, set,
  length-set, Bool-cases,
}
use vek.ObjMap.{Slot, tombstone, live, slot}
use vek.ObjMap.Probe.{place}
use vek.ObjMap.Loops.{IsFull}
use vek.ObjMap.Table.{slot-set, set-IsFull, IsReached, IsTable}

module _ {ℓ} {V : Type ℓ} (entries : List (Slot V)) (i : ℕ) (s : Slot V)
    (lt : i < length entries) where
  IsReached-set :
      (k h j : ℕ) → IsFull s → IsReached k entries h j → IsReached k (set entries i s) h j
  IsReached-set k h j f r = record {
    d = r.d;
    near = r.near;
    at = r.at;
    full = λ e near. set-IsFull entries i (place (2 ^ k) h e) s lt f (r.full e near);
  }

  -- what a slot of the new table holds is the new slot, or stood in the old one
  pub slot_cases :
      (j key : ℕ) (v : V)
      → slot (set entries i s) j ≡ live key v
      → ((i ≡ j) × (s ≡ live key v)) ⊎ ((i ≢ j) × (slot entries j ≡ live key v))
  slot_cases j key v e = elim (Bool-cases (i == j)) [
    | inl same ↦ inl (ground arith, ground (arith, slot-set entries i j s lt))
    | inr other ↦ inr (ground arith, ground (arith, slot-set entries i j s lt))
  ]

pub live_key {ℓ} : {V : Type ℓ} {a b : ℕ} {v w : V} → live a v ≡ live b w → a ≡ b
live_key e = cc

module _ {ℓ} {V : Type ℓ} (hash : ℕ → ℕ) (k : ℕ) (entries : List (Slot V))
    (t : IsTable hash k entries) (i : ℕ) (lt : i < length entries) where
  -- A value for a key that no other slot holds, in a slot that its probe reaches.
  module _ (key : ℕ) (v : V) (only : (j : ℕ) (w : V) → slot entries j ≡ live key w → i ≡ j)
      (r : IsReached k entries (hash key) i) where
    write_distinct :
        (a b key' : ℕ) (w w' : V)
        → ((i ≡ a) × (live key v ≡ live key' w)) ⊎ ((i ≢ a) × (slot entries a ≡ live key' w))
        → ((i ≡ b) × (live key v ≡ live key' w')) ⊎ ((i ≢ b) × (slot entries b ≡ live key' w'))
        → a ≡ b
    write_distinct a b key' w w' (inl (p, e)) (inl (q, e')) = sym p ∙ q
    write_distinct a b key' w w' (inl (p, e)) (inr (n, q)) = ground (arith, only b w')
    write_distinct a b key' w w' (inr (n, p)) (inl (q, e')) = ground (arith, only a w)
    write_distinct a b key' w w' (inr (n, p)) (inr (m, q)) = t.distinct a b key' w w' p q

    write_reached :
        (j key' : ℕ) (w : V)
        → ((i ≡ j) × (live key v ≡ live key' w)) ⊎ ((i ≢ j) × (slot entries j ≡ live key' w))
        → IsReached k entries (hash key') j
    write_reached j key' w (inl (p, e)) =
        subst₂ (λ x y. IsReached k entries (hash x) y) (live_key e) p r
    write_reached j key' w (inr (n, p)) = t.reached j key' w p

    pub write-IsTable : IsTable hash k (set entries i (live key v))
    write-IsTable = record {
      size = length-set entries i (live key v) ∙ t.size;
      distinct = λ a b key' w w' p q.
          write_distinct a b key' w w' (slot_cases entries i (live key v) lt a key' w p)
            (slot_cases entries i (live key v) lt b key' w' q);
      reached = λ j key' w p.
          IsReached-set entries i (live key v) lt k (hash key') j tt
            (write_reached j key' w (slot_cases entries i (live key v) lt j key' w p));
    }

  pub erased :
      (j key : ℕ) (w : V)
      → slot (set entries i tombstone) j ≡ live key w
      → slot entries j ≡ live key w
  erased j key w p = ground (arith, slot-set entries i j tombstone lt)

  -- A tombstone is no empty slot, so that no probe is cut short.
  pub erase-IsTable : IsTable hash k (set entries i tombstone)
  erase-IsTable = record {
    size = length-set entries i tombstone ∙ t.size;
    distinct = λ a b key w w' p q. t.distinct a b key w w' (erased a key w p) (erased b key w' q);
    reached = λ j key w p.
        IsReached-set entries i tombstone lt k (hash key) j tt
          (t.reached j key w (erased j key w p));
  }
