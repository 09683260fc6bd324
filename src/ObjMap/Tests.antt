-- ===== src/ObjMap/Tests.antt =====
-- Runs of the map operations of src/object.c, and the theorems at such maps.
use vek.Prelude.{
  ℕ, ◌≡◌, ◌≢◌, refl, inr, Bool, Option, none, some, List, [], ◌∷◌, arith, replicate, set, zero, suc,
  ◌<◌,
}
use vek.ObjMap.{
  Slot, tombstone, live, slot, ObjMap, obj_map_new, obj_map_get, obj_map_set, obj_map_delete,
  set_in, write, get_loop, set_loop, find_loop, free_loop, rehash, rehash_entry, map_grow,
}
use vek.ObjMap.Table.{IsTable}
use vek.ObjMap.Valid.{IsMap, fresh-IsTable}
use vek.ObjMap.Loops.{IsFull}
use vek.ObjMap.Writes.{write-IsTable}
use vek.ObjMap.Grow.{free, slot-replicate}
use vek.ObjMap.Get.{Answers, obj_map_get-Answers}
use vek.ObjMap.Set.{IsAssigned, obj_map_set-IsAssigned}
use vek.ObjMap.Delete.{IsDeleted, obj_map_delete-IsDeleted}
use vek.ObjMap.Spin.{IsClogged, clogged_spins}

-- the hash of a string is its own number here
abbrev hash : ℕ → ℕ
hash key = key

data Op : Type 0 where
  put : ℕ → ℕ → Op
  del : ℕ → Op

-- a script of sets and deletions, each with fuel 100
run : ObjMap ℕ → List Op → Option (ObjMap ℕ)
unfolding obj_map_get obj_map_set obj_map_delete set_in write get_loop set_loop find_loop free_loop
    rehash rehash_entry map_grow
run m [] = some m
run m (put key v ∷ ops) = elim (obj_map_set hash 100 m key v) [
  | none ↦ none
  | some (m', new) ↦ run m' ops
]
run m (del key ∷ ops) = elim (obj_map_delete hash 100 m key) [
  | none ↦ none
  | some (m', found) ↦ run m' ops
]

abbrev fresh : ObjMap ℕ
fresh = obj_map_new

abbrev tombstone_of : Slot ℕ
tombstone_of = tombstone

-- eight keys with eight homes, each deleted before the next is set
abbrev churn : List Op
churn =
    put 0 1
    ∷ del 0
    ∷ put 1 1
    ∷ del 1
    ∷ put 2 1
    ∷ del 2
    ∷ put 3 1
    ∷ del 3
    ∷ put 4 1
    ∷ del 4
    ∷ put 5 1
    ∷ del 5
    ∷ put 6 1
    ∷ del 6
    ∷ put 7 1
    ∷ del 7
    ∷ []

abbrev clogged : ObjMap ℕ
clogged = record { length = 0; capacity = 8; entries = replicate 8 tombstone }

run-churn : run fresh churn ≡ some clogged
unfolding run
run-churn = refl

tombstones-IsFull : (n i : ℕ) → i < n → IsFull (slot (replicate n (tombstone_of)) i)
tombstones-IsFull zero i lt = elim lt [ ]
tombstones-IsFull (suc n) zero lt = tt
tombstones-IsFull (suc n) (suc i) lt = tombstones-IsFull n i (omega arith)

tombstones_dead : (n i key v : ℕ) → slot (replicate n tombstone_of) i ≢ live key v
tombstones_dead zero i key v e = cc
tombstones_dead (suc n) zero key v e = cc
tombstones_dead (suc n) (suc i) key v e = tombstones_dead n i key v e

clogged-IsClogged : IsClogged clogged 8
clogged-IsClogged = record {
  k = 3;
  low = omega arith;
  size = refl;
  full = tombstones-IsFull 8;
  absent = λ i v. tombstones_dead 8 i 8 v;
}

-- the map that binds 5 to 7
abbrev one : ObjMap ℕ
one = record { length = 1; capacity = 8; entries = set (replicate 8 (free ℕ)) 5 (live 5 7) }

one-IsTable : IsTable hash 3 one.entries
one-IsTable =
    write-IsTable hash 3 (replicate 8 (free ℕ)) (fresh-IsTable hash 3) 5 (omega arith) 5 7
      (λ j w e. cc (slot-replicate ℕ 8 j))
      (record { d = 0; near = omega arith; at = refl; full = λ e lt. elim lt [ ] })

one-IsMap : IsMap hash one
one-IsMap = record {
  distinct = one-IsTable.distinct;
  counted = refl;
  shape = inr (3, omega arith, omega arith, refl, one-IsTable);
}

obj_map_get-Answers_example :
    (o : Option ℕ) × (obj_map_get hash 8 one 13 ≡ some o) × Answers one 13 o
obj_map_get-Answers_example =
    obj_map_get-Answers hash one one-IsMap 13 8 (omega arith) (inr (6, omega arith, refl))

-- 13 has the home of 5
obj_map_set-IsAssigned_example :
    (m' : ObjMap ℕ) × (new : Bool) × (obj_map_set hash 24 one 13 4 ≡ some (m', new))
    × IsAssigned hash one m' 13 4 new
obj_map_set-IsAssigned_example =
    obj_map_set-IsAssigned hash one one-IsMap 13 24 4 (omega arith) (omega arith)
      (inr (6, omega arith, refl))

obj_map_delete-IsDeleted_example :
    (m' : ObjMap ℕ) × (found : Bool) × (obj_map_delete hash 8 one 5 ≡ some (m', found))
    × IsDeleted hash one m' 5 found
obj_map_delete-IsDeleted_example =
    obj_map_delete-IsDeleted hash one one-IsMap 5 8 (omega arith) (inr (6, omega arith, refl))

clogged_spins_example :
    (obj_map_get hash 1000 clogged 8 ≡ none)
    × (obj_map_delete hash 1000 clogged 8 ≡ none)
    × (obj_map_set hash 1000 clogged 8 1 ≡ none)
clogged_spins_example = clogged_spins hash clogged 8 1000 clogged-IsClogged 1 refl
