-- ===== src/Intern/Insert.antt =====
-- Inserting a string that the table of src/object.c does not have is setting its code in the map.
use vek.Prelude.{
  ℕ, zero, suc, ◌+◌, ◌%◌, ◌^◌, ◌≤◌, ◌≡◌, refl, sym, ap, ◌∙◌, ◌⊎◌, inl, inr, Bool, Bool-cases,
  Option-cases, true, Option, none, some, Bytes, List, map, set, arith,
}
use mathlib.Core.Option.{some-injective}
use vek.ObjMap.{
  Slot, ObjMap, slot, set_loop, home, next, Target, update, insert, set_in, write, obj_map_set,
}
use vek.Intern.{
  Entry, empty, tombstone, string, InternTable, next_index, entry_at, intern_table_grow,
  insert_loop, is_loaded, insert_in, intern_table_insert,
}
use vek.Intern.Codes.{code}
use vek.Intern.AsMap.{hash_code, slot_of, map_of, slot-map, set-map, home-code, grow_as_map}

-- A probe that has passed a tombstone inserts there.
module _ (capacity key : ℕ) (es : List (Slot ℕ)) where
  set_loop-first :
      (fuel first i j : ℕ)
      → set_loop fuel capacity es key (some first) i ≡ some (insert j)
      → j ≡ first
  unfolding set_loop
  set_loop-first zero first i j e = cc
  set_loop-first (suc fuel) first i j e =
      elim (slot es i) as (λ s. slot es i ≡ s → j ≡ first) [
        | Slot.empty ↦ λ s. ground (arith, s, e)
        | Slot.tombstone ↦ λ s. ground (arith, s, e, set_loop-first fuel first (next capacity i) j)
        | Slot.live k v ↦ λ s. ground (arith, s, e, set_loop-first fuel first (next capacity i) j)
      ]
        refl

module _ (capacity key : ℕ) (es : List Entry) where
  insert_at_entry :
      (fuel i j : ℕ)
      → (set_loop fuel capacity (map slot_of es) key none (next capacity i) ≡ some (insert j)
          → insert_loop fuel capacity es (next_index capacity i) ≡ some j)
      → set_loop (suc fuel) capacity (map slot_of es) key none i ≡ some (insert j)
      → (e : Entry) → slot (map slot_of es) i ≡ slot_of e
      → entry_at es i ≡ e
      → insert_loop (suc fuel) capacity es i ≡ some j
  unfolding set_loop insert_loop
  insert_at_entry fuel i j ih h empty s p = ground (arith, s, p, h)
  insert_at_entry fuel i j ih h tombstone s p =
      ground
        (arith, s, p, h, set_loop-first capacity key (map slot_of es) fuel i (next capacity i) j)
  insert_at_entry fuel i j ih h (string a bs) s p = ground (arith, s, p, h, ih)

  -- Where the probe of the map inserts, the table inserts.
  insert_as_set :
      (fuel i j : ℕ)
      → set_loop fuel capacity (map slot_of es) key none i ≡ some (insert j)
      → insert_loop fuel capacity es i ≡ some j
  unfolding set_loop insert_loop
  insert_as_set zero i j h = cc
  insert_as_set (suc fuel) i j h =
      insert_at_entry fuel i j (insert_as_set fuel (next capacity i) j) h (entry_at es i)
        (slot-map es i) refl

-- a table that is the map
abbrev pub Becomes : Option InternTable → ObjMap ℕ → Type 0
Becomes made m = (t : InternTable) × (made ≡ some t) × (map_of t ≡ m)

Target-cases :
    (o : Option Target)
    → (o ≡ none) ⊎ (((i : ℕ) × (o ≡ some (update i))) ⊎ ((i : ℕ) × (o ≡ some (insert i))))
Target-cases none = inl refl
Target-cases (some (update i)) = inr (inl (i, refl))
Target-cases (some (insert i)) = inr (inr (i, refl))

insert_in_as_map :
    (fuel : ℕ) (t : InternTable) (chars : Bytes) (a : ℕ) (m : ObjMap ℕ)
    → set_in hash_code fuel (map_of t) (code chars) a ≡ some (m, true)
    → Becomes (insert_in fuel t a chars) m
unfolding set_in write
insert_in_as_map fuel t chars a m h =
    let home_i = home hash_code t.capacity (code chars) in
    elim (Target-cases
      (set_loop fuel t.capacity (map slot_of t.entries) (code chars) none home_i)) [
        | inl e ↦ cc (rw (set_in, e) at h)
        | inr (inl (i, e)) ↦ cc (rw (set_in, e) at h)
        | inr (inr (j, e)) ↦
            let found = insert_as_set t.capacity (code chars) t.entries fuel home_i j e in
            let at_home =
              ap (insert_loop fuel t.capacity t.entries) (sym (home-code t.capacity chars))
              ∙ found in
            let written = some-injective _ _ (rw (set_in, e) at h) in
            (
              record t {
                entries = set t.entries j (string a chars);
                count = (t.count + 1) % 2 ^ 32;
              },
              rw (insert_in, at_home) refl,
              ap (λ es. record (map_of t) { length = (t.count + 1) % 2 ^ 32; entries = es })
                    (set-map t.entries j (string a chars))
                  ∙ ap (λ (p : ObjMap ℕ × Bool). p.0) written,
            )
      ]

-- Setting the code of a string that the map does not have is inserting the string.
pub insert_as_map :
    (fuel : ℕ) (t : InternTable) (chars : Bytes) (a : ℕ) (m : ObjMap ℕ)
    → 8 ≤ t.capacity
    → obj_map_set hash_code fuel (map_of t) (code chars) a ≡ some (m, true)
    → Becomes (intern_table_insert fuel t a chars) m
unfolding obj_map_set intern_table_insert
insert_as_map fuel t chars a m big h = elim (Bool-cases (is_loaded t)) [
  | inr stays ↦
      let (t', e, same) = insert_in_as_map fuel t chars a m (rw (obj_map_set, stays) at h) in
      (t', rw (intern_table_insert, stays) e, same)
  | inl grows ↦ elim (Option-cases (intern_table_grow t)) [
    | inl stuck ↦ cc (rw (obj_map_set, grows, grow_as_map t big, stuck) at h)
    | inr (g, grown) ↦
        let (t', e, same) =
          insert_in_as_map fuel g chars a m
            (rw (obj_map_set, grows, grow_as_map t big, grown) at h) in
        (t', rw (intern_table_insert, grows, grown) e, same)
  ]
]
