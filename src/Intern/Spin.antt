-- ===== src/Intern/Spin.antt =====
-- The lookup of src/object.c does not end on a table with no NULL slot that lacks the string. Removing the
-- strings that a collection frees leaves tombstones that `count` does not count, so that the table need
-- not grow before its last NULL slot is used.
use vek.Prelude.{ℕ, ◌^◌, ◌≤◌, ◌<◌, ◌≡◌, ◌≢◌, refl, sym, ◌∙◌, false, none, Bytes}
use vek.ObjMap.Loops.{IsFull}
use vek.ObjMap.Spin.{IsClogged, clogged_spins}
use vek.Intern.{
  Entry, empty, tombstone, string, InternTable, entry_at, intern_table_find, obj_string_new,
  is_loaded,
}
use vek.Intern.Codes.{code}
use vek.Intern.AsMap.{hash_code, slot_of, map_of, slot-map, find_as_get}
use vek.Intern.Canonical.{Holds, Holds-of}

-- every slot is a tombstone or holds another string
pub record IsStuffed (t : InternTable) (chars : Bytes) : Type 0 where
  pub k : ℕ
  pub low : 3 ≤ k
  pub size : t.capacity ≡ 2 ^ k
  pub full : (i : ℕ) → i < 2 ^ k → entry_at t.entries i ≢ empty
  pub absent : (a : ℕ) → ¬ Holds t chars a

slot_of-IsFull : (e : Entry) → e ≢ empty → IsFull (slot_of e)
slot_of-IsFull empty n = n refl
slot_of-IsFull tombstone n = tt
slot_of-IsFull (string a bs) n = tt

IsClogged-of :
    (t : InternTable) (chars : Bytes) → IsStuffed t chars → IsClogged (map_of t) (code chars)
IsClogged-of t chars s = record {
  k = s.k;
  low = s.low;
  size = s.size;
  full = λ i lt. rw (slot-map t.entries i) (slot_of-IsFull (entry_at t.entries i) (s.full i lt));
  absent = λ i a e. s.absent a (Holds-of t chars a (i, e));
}

-- On a table without a NULL slot that is not due to grow, looking up or making a string that the table
-- lacks never ends: the loop runs through any number of rounds.
pub stuffed_spins :
    (t : InternTable) (chars : Bytes) (fuel fresh : ℕ)
    → IsStuffed t chars
    → is_loaded t ≡ false
    → (intern_table_find fuel t chars ≡ none) × (obj_string_new fuel t fresh chars ≡ none)
unfolding obj_string_new
stuffed_spins t chars fuel fresh s stays =
    let (spins, _, _) =
      clogged_spins hash_code (map_of t) (code chars) fuel (IsClogged-of t chars s) 0 stays in
    let lost = sym (find_as_get fuel t chars) ∙ spins in (lost, rw (obj_string_new, lost) refl)
