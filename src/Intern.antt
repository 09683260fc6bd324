-- ===== src/Intern.antt =====
-- The table of interned strings of src/object.c: open addressing with linear probing and tombstones. An
-- entry is the address of a string object with its bytes; the hash that the object caches is theirs, so that
-- equal bytes have equal hashes and comparing the hashes first is left out. A
-- loop that probes takes fuel, and `none` means that it has not ended within it.
pub mod Codes
pub mod AsMap
pub mod Insert
pub mod Canonical
pub mod Spin
mod Tests
use Prim.Native.Nat.{bit_and, bit_xor}
use vek.ObjMap.{u32_mod}
use vek.Prelude.{
  ℕ, zero, suc, ◌+◌, ◌-◌, ◌*◌, ◌/◌, ◌%◌, ◌^◌, Bool, true, false, Option, none, some, ◌>>=◌, Bytes,
  List, [], ◌∷◌, ltb, ◌==◌, if◌then◌else◌, get_or, set, replicate, bytes_eq,
}

-- NULL, the tombstone, or a string
pub data Entry : Type 0 where
  empty : Entry
  tombstone : Entry
  string : ℕ → Bytes → Entry

pub record InternTable : Type 0 where
  pub entries : List Entry
  pub count : ℕ
  pub capacity : ℕ

abbrev pub intern_table_init : InternTable
intern_table_init = record { entries = replicate 64 empty; count = 0; capacity = 64 }

abbrev pub hash_step : ℕ → ℕ → ℕ
hash_step hash byte = bit_xor hash byte * 16777619 % u32_mod

abbrev pub hash_from : ℕ → Bytes → ℕ
hash_from hash [] = hash
hash_from hash (b ∷ bs) = hash_from (hash_step hash b) bs

abbrev pub hash_string : Bytes → ℕ
hash_string key = hash_from 2166136261 key

-- `(index + 1) & (capacity - 1)`
abbrev pub next_index : ℕ → ℕ → ℕ
next_index capacity index = bit_and (index + 1) (capacity - 1)

abbrev pub home_index : ℕ → Bytes → ℕ
home_index capacity chars = bit_and (hash_string chars) (capacity - 1)

abbrev pub entry_at : List Entry → ℕ → Entry
entry_at entries index = get_or entries index empty

unfoldable pub lookup_loop : ℕ → ℕ → List Entry → Bytes → ℕ → Option (Option ℕ)
lookup_loop zero capacity entries chars index = none
lookup_loop (suc fuel) capacity entries chars index =
    let rest = lookup_loop fuel capacity entries chars (next_index capacity index) in
    elim (entry_at entries index) [
      | empty ↦ some none
      | tombstone ↦ rest
      | string address data_bytes ↦ if bytes_eq data_bytes chars then some (some address) else rest
    ]

unfoldable pub intern_table_find : ℕ → InternTable → Bytes → Option (Option ℕ)
intern_table_find fuel t chars =
    if t.capacity == 0
    then some none
    else lookup_loop fuel t.capacity t.entries chars (home_index t.capacity chars)

-- `while (new_entries[idx] != NULL)`
unfoldable pub null_loop : ℕ → ℕ → List Entry → ℕ → Option ℕ
null_loop zero capacity entries index = none
null_loop (suc fuel) capacity entries index =
    let rest = null_loop fuel capacity entries (next_index capacity index) in
    elim (entry_at entries index) [
      | empty ↦ some index
      | tombstone ↦ rest
      | string address data_bytes ↦ rest
    ]

unfoldable pub rehash_strings : ℕ → List Entry → List Entry → Option (List Entry)
rehash_strings new_cap [] new_entries = some new_entries
rehash_strings new_cap (empty ∷ es) new_entries = rehash_strings new_cap es new_entries
rehash_strings new_cap (tombstone ∷ es) new_entries = rehash_strings new_cap es new_entries
rehash_strings new_cap (string address data_bytes ∷ es) new_entries = do
  index ← null_loop new_cap new_cap new_entries (home_index new_cap data_bytes)
  rehash_strings new_cap es (set new_entries index (string address data_bytes))

unfoldable pub intern_table_grow : InternTable → Option InternTable
intern_table_grow t =
    let new_cap = t.capacity * 2 % u32_mod in
    do
      new_entries ← rehash_strings new_cap t.entries (replicate new_cap empty)
      some (record t { entries = new_entries; capacity = new_cap })

-- `while (entries[index] != NULL && entries[index] != INTERN_TOMBSTONE)`
unfoldable pub insert_loop : ℕ → ℕ → List Entry → ℕ → Option ℕ
insert_loop zero capacity entries index = none
insert_loop (suc fuel) capacity entries index =
    let rest = insert_loop fuel capacity entries (next_index capacity index) in
    elim (entry_at entries index) [
      | empty ↦ some index
      | tombstone ↦ some index
      | string address data_bytes ↦ rest
    ]

-- `count + 1 > capacity * 3 / 4`
abbrev pub is_loaded : InternTable → Bool
is_loaded t = ltb (t.capacity * 3 % u32_mod / 4) ((t.count + 1) % u32_mod)

abbrev pub insert_in : ℕ → InternTable → ℕ → Bytes → Option InternTable
insert_in fuel t address chars = do
  index ← insert_loop fuel t.capacity t.entries (home_index t.capacity chars)
  some (record t {
    entries = set t.entries index (string address chars);
    count = (t.count + 1) % u32_mod;
  })

unfoldable pub intern_table_insert : ℕ → InternTable → ℕ → Bytes → Option InternTable
intern_table_insert fuel t address chars =
    if is_loaded t
    then (do t ← intern_table_grow t; insert_in fuel t address chars)
    else insert_in fuel t address chars

-- the loop over the entries; `is_marked` reads the mark of the string at an address
unfoldable pub remove_loop : (ℕ → Bool) → List Entry → List Entry × ℕ
remove_loop is_marked [] = ([], 0)
remove_loop is_marked (empty ∷ es) =
    let (es', removed) = remove_loop is_marked es in (empty ∷ es', removed)
remove_loop is_marked (tombstone ∷ es) =
    let (es', removed) = remove_loop is_marked es in (tombstone ∷ es', removed)
remove_loop is_marked (string address data_bytes ∷ es) =
    let (es', removed) = remove_loop is_marked es in
    if is_marked address
    then (string address data_bytes ∷ es', removed)
    else (tombstone ∷ es', suc removed)

-- `count--` for every entry that is removed
unfoldable pub intern_table_remove_unmarked : (ℕ → Bool) → InternTable → InternTable
intern_table_remove_unmarked is_marked t =
    let (entries, removed) = remove_loop is_marked t.entries in
    record t { entries = entries; count = (t.count + u32_mod - removed) % u32_mod }

-- The string's address, the table, and whether a string was allocated at `fresh`.
unfoldable pub obj_string_new : ℕ → InternTable → ℕ → Bytes → Option (ℕ × Bool × InternTable)
obj_string_new fuel t fresh chars = do
  interned ← intern_table_find fuel t chars
  elim interned [
    | some address ↦ some (address, false, t)
    | none ↦ do t ← intern_table_insert fuel t fresh chars; some (fresh, true, t)
  ]
