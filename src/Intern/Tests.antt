-- ===== src/Intern/Tests.antt =====
-- Runs of the table of interned strings of src/object.c.
use vek.Prelude.{
  ℕ, zero, suc, ◌<◌, ◌≡◌, ◌≢◌, refl, inr, Bool, true, false, some, none, Bytes, bytes_eq, [], ◌∷◌,
  replicate, arith,
}
use vek.ObjMap.{slot, live}
use vek.ObjMap.Valid.{fresh-IsTable}
use vek.Intern.AsMap.{hash_code, slot_of}
use vek.Intern.Canonical.{IsInternTable, IsCanonical, obj_string_new-IsCanonical}
use vek.Intern.Spin.{IsStuffed, stuffed_spins}
use vek.Intern.{
  entry_at, intern_table_init, InternTable, empty, tombstone, string, hash_string, obj_string_new,
  intern_table_find, intern_table_insert, lookup_loop, insert_loop, intern_table_remove_unmarked,
  remove_loop,
}

-- the FNV-1a hash of "a"
hash-a : hash_string (97 ∷ []) ≡ 0xE40C292C
hash-a = refl

abbrev table : InternTable
table = record { entries = empty ∷ empty ∷ empty ∷ empty ∷ []; count = 0; capacity = 4 }

abbrev one : InternTable
one = record { entries = string 16 (97 ∷ []) ∷ empty ∷ empty ∷ empty ∷ []; count = 1; capacity = 4 }

new-twice :
    (obj_string_new 4 table 16 (97 ∷ []) ≡ some (16, true, one))
    × (obj_string_new 4 one 32 (97 ∷ []) ≡ some (16, false, one))
unfolding obj_string_new intern_table_find lookup_loop intern_table_insert insert_loop bytes_eq
new-twice = (refl, refl)

freed :
    (intern_table_remove_unmarked (λ a. false) one).entries ≡ tombstone ∷ empty ∷ empty ∷ empty ∷ []
unfolding intern_table_remove_unmarked remove_loop
freed = refl

none_live : (n i key v : ℕ) → slot (replicate n (slot_of empty)) i ≢ live key v
none_live zero i key v e = cc
none_live (suc n) zero key v e = cc
none_live (suc n) (suc i) key v e = none_live n i key v e

init-IsInternTable : IsInternTable intern_table_init
init-IsInternTable = record {
  valid = record {
    distinct = λ i j key v w p q. absurd (none_live 64 i key v p);
    counted = refl;
    shape = inr (6, omega arith, omega arith, refl, fresh-IsTable hash_code 6);
  };
  big = omega arith;
}

obj_string_new-IsCanonical_example :
    (a : ℕ) × (new : Bool) × (t' : InternTable) × (obj_string_new 200 intern_table_init 16 (97 ∷ [])
      ≡ some (a, new, t'))
    × IsCanonical intern_table_init t' (97 ∷ []) 16 a new
obj_string_new-IsCanonical_example =
    obj_string_new-IsCanonical 200 intern_table_init (97 ∷ []) 16 init-IsInternTable
      (0, omega arith, refl) (omega arith) (omega arith)

-- what remains when every string was freed and every slot was used once
abbrev worn : InternTable
worn = record { entries = replicate 64 tombstone; count = 0; capacity = 64 }

worn-full : (n i : ℕ) → i < n → entry_at (replicate n tombstone) i ≢ empty
worn-full zero i h = absurd (omega arith)
worn-full (suc n) zero h = λ e. cc
worn-full (suc n) (suc i) h = worn-full n i (omega arith)

worn-dead : (n i a : ℕ) (chars : Bytes) → entry_at (replicate n tombstone) i ≢ string a chars
worn-dead zero i a chars e = cc
worn-dead (suc n) zero a chars e = cc
worn-dead (suc n) (suc i) a chars e = worn-dead n i a chars e

worn-IsStuffed : IsStuffed worn (97 ∷ [])
worn-IsStuffed = record {
  k = 6;
  low = omega arith;
  size = refl;
  full = worn-full 64;
  absent = λ a (i, e). worn-dead 64 i a (97 ∷ []) e;
}

stuffed_spins_example :
    (intern_table_find 1000 worn (97 ∷ []) ≡ none) × (obj_string_new 1000 worn 16 (97 ∷ []) ≡ none)
stuffed_spins_example = stuffed_spins worn (97 ∷ []) 1000 16 worn-IsStuffed refl
