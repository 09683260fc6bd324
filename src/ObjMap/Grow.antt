-- ===== src/ObjMap/Grow.antt =====
-- `map_grow` of src/object.c: the larger table holds what the old one held, and no tombstone.
use vek.Prelude.{
  ℕ, zero, suc, ◌^◌, ◌<◌, ◌≡◌, ◌≢◌, refl, ap, ◌∙◌, some, List, [], ◌∷◌, arith, length, set,
  replicate,
}
use vek.ObjMap.{Slot, empty, tombstone, live, slot, free_loop, rehash_entry}
use vek.ObjMap.Probe.{place, place-lt, home-place}
use vek.ObjMap.Loops.{IsLive, IsFull, free_loop-empty}
use vek.ObjMap.Table.{IsTable, count_live}
use vek.ObjMap.Writes.{write-IsTable}
use vek.ObjMap.Lookup.{IsFirst, IsFirst-empty}

abbrev pub Held {ℓ} : {V : Type ℓ} → List (Slot V) → ℕ → V → Type ℓ
Held entries key v = (i : ℕ) × (slot entries i ≡ live key v)

abbrev pub HasEmpty {ℓ} : {V : Type ℓ} → List (Slot V) → Type ℓ
HasEmpty entries = (i : ℕ) × (i < length entries) × (slot entries i ≡ empty)

abbrev pub HasNoTombstone {ℓ} : {V : Type ℓ} → List (Slot V) → Type ℓ
HasNoTombstone entries = (i : ℕ) → slot entries i ≢ tombstone

module _ {ℓ} {V : Type ℓ} where
  -- fewer keys than slots leave an empty one, where there is no tombstone
  pub has_empty :
      (entries : List (Slot V))
      → HasNoTombstone entries
      → count_live entries < length entries
      → HasEmpty entries
  has_empty [] n lt = elim lt [ ]
  has_empty (empty ∷ xs) n lt = (0, omega arith, refl)
  has_empty (tombstone ∷ xs) n lt = absurd (n 0 refl)
  has_empty (live k v ∷ xs) n lt =
      let (i, near, e) = has_empty xs (λ j. n (suc j)) (omega arith) in (suc i, omega arith, e)

  IsLive-of : (s : Slot V) → IsFull s → s ≢ tombstone → IsLive s
  IsLive-of empty f n = f
  IsLive-of tombstone f n = n refl
  IsLive-of (live k v) f n = tt

module _ {ℓ} (V : Type ℓ) where
  abbrev pub free : Slot V
  free = empty

  pub slot-replicate : (n i : ℕ) → slot (replicate n free) i ≡ free
  slot-replicate zero i = refl
  slot-replicate (suc n) zero = refl
  slot-replicate (suc n) (suc i) = slot-replicate n i

  pub count_live-replicate : (n : ℕ) → count_live (replicate n free) ≡ 0
  count_live-replicate zero = refl
  count_live-replicate (suc n) = omega (arith, count_live-replicate n)

-- What a table holds once a key went into an empty slot of it.
pub record IsPlaced {ℓ} {V : Type ℓ} (hash : ℕ → ℕ) (k : ℕ) (entries : List (Slot V)) (key : ℕ)
    (v : V) (entries' : List (Slot V)) : Type ℓ where
  pub index : ℕ
  pub lt : index < length entries
  pub vacant : slot entries index ≡ empty
  pub same : entries' ≡ set entries index (live key v)
  pub table : IsTable hash k entries'

module _ {ℓ} {V : Type ℓ} (hash : ℕ → ℕ) (k : ℕ) (entries : List (Slot V))
    (t : IsTable hash k entries) (clean : HasNoTombstone entries)
    (room : count_live entries < 2 ^ k) (key : ℕ) (v : V)
    (absent : (j : ℕ) (w : V) → slot entries j ≢ live key w) where
  IsPlaced-at :
      (d : ℕ)
      → IsFirst k entries (hash key) (2 ^ k) d
      → (entries' : List (Slot V)) × (rehash_entry hash (2 ^ k) (live key v) entries
          ≡ some entries')
        × IsPlaced hash k entries key v entries'
  unfolding rehash_entry
  IsPlaced-at d f =
      let index = place (2 ^ k) (hash key) d in
      let lt : index < length entries = rw t.size (place-lt k (hash key) d) in
      let found =
        ap (free_loop (2 ^ k) (2 ^ k) entries) (home-place hash k key)
        ∙ free_loop-empty k entries (hash key) d (2 ^ k) f.near
            (λ e near. IsLive-of _ (f.full e near) (clean (place (2 ^ k) (hash key) e))) f.vacant in
      (
        set entries index (live key v),
        ground (arith, found),
        record {
          index = index;
          lt = lt;
          vacant = f.vacant;
          same = refl;
          table =
              write-IsTable hash k entries t index lt key v (λ j w e. absurd (absent j w e))
                (record { d = d; near = f.near; at = refl; full = f.full });
        },
      )

  pub rehash_entry-IsPlaced :
      (entries' : List (Slot V)) × (rehash_entry hash (2 ^ k) (live key v) entries ≡ some entries')
      × IsPlaced hash k entries key v entries'
  rehash_entry-IsPlaced =
      let (i, lt, e) = has_empty entries clean (rw t.size room) in
      let (d, f) = IsFirst-empty k entries (hash key) i (rw t.size at lt) e in IsPlaced-at d f
