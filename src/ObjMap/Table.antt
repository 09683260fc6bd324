-- ===== src/ObjMap/Table.antt =====
-- The invariant of a table of src/object.c, and the writes that keep it.
use native.Mathlib.Nat.{div-add-mod}
use vek.Prelude.{
  ℕ, zero, suc, ◌+◌, ◌%◌, ◌^◌, ◌<◌, ◌≡◌, ◌≢◌, refl, ◌∙◌, Bool, true, false, List, [], ◌∷◌, arith,
  ◌==◌, if◌then◌else◌, length, set,
}
use vek.ObjMap.{Slot, live, slot}
use vek.ObjMap.Probe.{place}
use vek.ObjMap.Loops.{IsFull, met}

module _ {ℓ} {V : Type ℓ} where
  abbrev pub is_live : Slot V → ℕ
  is_live (live k v) = 1
  is_live _ = 0

  abbrev pub count_live : List (Slot V) → ℕ
  count_live [] = 0
  count_live (s ∷ entries) = is_live s + count_live entries

  pub slot-set :
      (entries : List (Slot V)) (i j : ℕ) (s : Slot V)
      → i < length entries
      → slot (set entries i s) j ≡ (if i == j then s else slot entries j)
  slot-set [] i j s lt = elim lt [ ]
  slot-set (x ∷ xs) zero zero s lt = refl
  slot-set (x ∷ xs) zero (suc j) s lt = ground arith
  slot-set (x ∷ xs) (suc i) zero s lt = ground arith
  slot-set (x ∷ xs) (suc i) (suc j) s lt = slot-set xs i j s (omega arith) ∙ ground arith

  pub slot-set_self :
      (entries : List (Slot V)) (i : ℕ) (s : Slot V)
      → i < length entries
      → slot (set entries i s) i ≡ s
  slot-set_self entries i s lt = slot-set entries i i s lt ∙ ground arith

  pub slot-set_ne :
      (entries : List (Slot V)) (i j : ℕ) (s : Slot V)
      → i < length entries
      → i ≢ j
      → slot (set entries i s) j ≡ slot entries j
  slot-set_ne entries i j s lt ne = slot-set entries i j s lt ∙ ground arith

  pub count_live-set :
      (entries : List (Slot V)) (i : ℕ) (s : Slot V)
      → i < length entries
      → count_live (set entries i s) + is_live (slot entries i) ≡ count_live entries + is_live s
  count_live-set [] i s lt = elim lt [ ]
  count_live-set (x ∷ xs) zero s lt = omega arith
  count_live-set (x ∷ xs) (suc i) s lt = omega (arith, count_live-set xs i s (omega arith))

  -- a slot out of range reads as empty
  pub slot-lt : (entries : List (Slot V)) (i : ℕ) → IsFull (slot entries i) → i < length entries
  slot-lt [] i f = elim f [ ]
  slot-lt (x ∷ xs) zero f = omega arith
  slot-lt (x ∷ xs) (suc i) f = omega (arith, slot-lt xs i f)

  if-IsFull : (b : Bool) (s t : Slot V) → IsFull s → IsFull t → IsFull (if b then s else t)
  if-IsFull true s t f g = f
  if-IsFull false s t f g = g

  pub set-IsFull :
      (entries : List (Slot V)) (i j : ℕ) (s : Slot V)
      → i < length entries
      → IsFull s
      → IsFull (slot entries j)
      → IsFull (slot (set entries i s) j)
  set-IsFull entries i j s lt f g = rw (slot-set entries i j s lt) (if-IsFull (i == j) s _ f g)

-- two places of one probe are different slots
pub place-injective_lt : (m h e d : ℕ) → e < d → d < m → (h + e) % m ≡ (h + d) % m → ⊥
place-injective_lt m h e d lt near eq = grind (arith, div-add-mod (h + e) m, div-add-mod (h + d) m)

-- Each key stands in one slot at most.
abbrev pub IsDistinct {ℓ} : {V : Type ℓ} → List (Slot V) → Type ℓ
IsDistinct {V} entries =
    (i j key : ℕ) (v w : V) → slot entries i ≡ live key v → slot entries j ≡ live key w → i ≡ j

-- The slot lies in the probe of the hash, with no empty slot before it.
pub record IsReached {ℓ} {V : Type ℓ} (k : ℕ) (entries : List (Slot V)) (h index : ℕ) : Type 0 where
  pub d : ℕ
  pub near : d < 2 ^ k
  pub at : place (2 ^ k) h d ≡ index
  pub full : (e : ℕ) → e < d → IsFull (met k entries h e)

module _ {ℓ} {V : Type ℓ} (hash : ℕ → ℕ) where
  -- A table of 2 ^ k slots whose probes find what it holds.
  pub record IsTable (k : ℕ) (entries : List (Slot V)) : Type ℓ where
    pub size : length entries ≡ 2 ^ k
    pub distinct : IsDistinct entries
    pub reached :
        (i key : ℕ) (v : V) → slot entries i ≡ live key v → IsReached k entries (hash key) i
