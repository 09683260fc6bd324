-- ===== src/ObjMap.antt =====
-- The map objects of src/object.c: open addressing with linear probing and tombstones. A key is
-- the address of an interned string, and `hash` reads that string's cached hash. A loop that probes
-- takes fuel, and `none` means that it has not ended within it.
pub mod Probe
mod Tests
pub mod Loops
pub mod SetLoop
pub mod Table
pub mod Writes
pub mod Lookup
pub mod Grow
pub mod Rehash
pub mod Valid
pub mod Get
pub mod Set
pub mod Delete
pub mod Spin
use Prim.Native.Nat.{bit_and}
use vek.Prelude.{
  ℕ, zero, suc, ◌+◌, ◌-◌, ◌*◌, ◌/◌, ◌%◌, ◌^◌, Bool, true, false, Option, none, some, List, [], ◌∷◌,
  ltb, ◌==◌, if◌then◌else◌, get_or, set, replicate,
}

-- `key` is NULL, the tombstone, or a string
pub data Slot {ℓ} (V : Type ℓ) : Type ℓ where
  empty : Slot V
  tombstone : Slot V
  live : ℕ → V → Slot V

pub record ObjMap {ℓ} (V : Type ℓ) : Type ℓ where
  pub length : ℕ
  pub capacity : ℕ
  pub entries : List (Slot V)

-- Where the probe of `obj_map_set` ends: at the slot of the key, or where a new key goes.
pub data Target : Type 0 where
  update : ℕ → Target
  insert : ℕ → Target

abbrev pub u32_mod : ℕ
u32_mod = 2 ^ 32

-- `(index + 1) & (capacity - 1)`
abbrev pub next : ℕ → ℕ → ℕ
next capacity index = bit_and (index + 1) (capacity - 1)

-- `tombstone_slot` is the first tombstone that was passed
abbrev pub remember : Option ℕ → ℕ → Option ℕ
remember none index = some index
remember (some first) index = some first

abbrev pub reuse : Option ℕ → ℕ → ℕ
reuse none index = index
reuse (some first) index = first

-- `key->hash & (capacity - 1)`
abbrev pub home : (ℕ → ℕ) → ℕ → ℕ → ℕ
home hash capacity key = bit_and (hash key) (capacity - 1)

abbrev pub grown_capacity : ℕ → ℕ
grown_capacity capacity = if ltb capacity 8 then 8 else capacity * 2 % u32_mod

module _ {ℓ} {V : Type ℓ} where
  abbrev pub slot : List (Slot V) → ℕ → Slot V
  slot entries index = get_or entries index empty

  abbrev pub obj_map_new : ObjMap V
  obj_map_new = record { length = 0; capacity = 0; entries = [] }

  -- `while (new_entries[idx].key != NULL)`
  unfoldable pub free_loop : ℕ → ℕ → List (Slot V) → ℕ → Option ℕ
  free_loop zero capacity entries index = none
  free_loop (suc fuel) capacity entries index =
      let rest = free_loop fuel capacity entries (next capacity index) in
      elim (slot entries index) [ empty ↦ some index | _ ↦ rest ]

  unfoldable pub get_loop : ℕ → ℕ → List (Slot V) → ℕ → ℕ → Option (Option V)
  get_loop zero capacity entries key index = none
  get_loop (suc fuel) capacity entries key index =
      let rest = get_loop fuel capacity entries key (next capacity index) in
      elim (slot entries index) [
        | empty ↦ some none
        | tombstone ↦ rest
        | live k v ↦ if k == key then some (some v) else rest
      ]

  -- the loop of `obj_map_delete`, up to the slot of the key
  unfoldable pub find_loop : ℕ → ℕ → List (Slot V) → ℕ → ℕ → Option (Option ℕ)
  find_loop zero capacity entries key index = none
  find_loop (suc fuel) capacity entries key index =
      let rest = find_loop fuel capacity entries key (next capacity index) in
      elim (slot entries index) [
        | empty ↦ some none
        | tombstone ↦ rest
        | live k v ↦ if k == key then some (some index) else rest
      ]

  unfoldable pub set_loop : ℕ → ℕ → List (Slot V) → ℕ → Option ℕ → ℕ → Option Target
  set_loop zero capacity entries key tombstone_slot index = none
  set_loop (suc fuel) capacity entries key tombstone_slot index =
      let passed =
        set_loop fuel capacity entries key (remember tombstone_slot index) (next capacity index) in
      let rest = set_loop fuel capacity entries key tombstone_slot (next capacity index) in
      elim (slot entries index) [
        | empty ↦ some (insert (reuse tombstone_slot index))
        | tombstone ↦ passed
        | live k v ↦ if k == key then some (update index) else rest
      ]

  -- writes at the slot that the probe found
  unfoldable pub write : ObjMap V → ℕ → V → Target → ObjMap V × Bool
  write map key value (update index) =
      (record map { entries = set map.entries index (live key value) }, false)
  write map key value (insert index) = (
    record map {
      length = (map.length + 1) % u32_mod;
      entries = set map.entries index (live key value);
    },
    true,
  )

  abbrev pub needs_growth : ObjMap V → Bool
  needs_growth map = ltb (map.capacity * 3 % u32_mod / 4) ((map.length + 1) % u32_mod)

module _ {ℓ} {V : Type ℓ} (hash : ℕ → ℕ) where
  -- one round of the loop of `map_grow`
  unfoldable pub rehash_entry : ℕ → Slot V → List (Slot V) → Option (List (Slot V))
  rehash_entry capacity empty entries = some entries
  rehash_entry capacity tombstone entries = some entries
  rehash_entry capacity (live k v) entries =
      elim (free_loop capacity capacity entries (home hash capacity k)) [
        | none ↦ none
        | some index ↦ some (set entries index (live k v))
      ]

  unfoldable pub rehash : ℕ → List (Slot V) → List (Slot V) → Option (List (Slot V))
  rehash capacity [] entries = some entries
  rehash capacity (s ∷ old) entries = elim (rehash_entry capacity s entries) [
    | none ↦ none
    | some entries' ↦ rehash capacity old entries'
  ]

  unfoldable pub map_grow : ObjMap V → Option (ObjMap V)
  map_grow map =
      let capacity = grown_capacity map.capacity in
      elim (rehash capacity map.entries (replicate capacity empty)) [
        | none ↦ none
        | some entries ↦ some (record map { capacity = capacity; entries = entries })
      ]

  -- `obj_map_set` past the growth
  unfoldable pub set_in : ℕ → ObjMap V → ℕ → V → Option (ObjMap V × Bool)
  set_in fuel map key value =
      elim (set_loop fuel map.capacity map.entries key none (home hash map.capacity key)) [
        | none ↦ none
        | some target ↦ some (write map key value target)
      ]

  unfoldable pub obj_map_set : ℕ → ObjMap V → ℕ → V → Option (ObjMap V × Bool)
  obj_map_set fuel map key value =
      if needs_growth map
      then elim (map_grow map) [ none ↦ none | some map' ↦ set_in fuel map' key value ]
      else set_in fuel map key value

  unfoldable pub obj_map_get : ℕ → ObjMap V → ℕ → Option (Option V)
  obj_map_get fuel map key =
      if map.capacity == 0
      then some none
      else get_loop fuel map.capacity map.entries key (home hash map.capacity key)

  -- the new map, and whether the key was there
  unfoldable pub obj_map_delete : ℕ → ObjMap V → ℕ → Option (ObjMap V × Bool)
  obj_map_delete fuel map key =
      if map.capacity == 0
      then some (map, false)
      else elim (find_loop fuel map.capacity map.entries key (home hash map.capacity key)) [
        | none ↦ none
        | some none ↦ some (map, false)
        | some (some index) ↦ some (
          record map {
            length = (map.length + u32_mod - 1) % u32_mod;
            entries = set map.entries index tombstone;
          },
          true,
        )
      ]
