-- ===== src/Intern/AsMap.antt =====
-- The table of interned strings of src/object.c as a map object whose keys are the codes of the strings:
-- the loops of the two go the same way.
use vek.Prelude.{
  ℕ, zero, suc, ◌*◌, ◌%◌, ◌^◌, ◌≤◌, ◌≡◌, refl, sym, ap, ◌∙◌, inl, inr, Option-cases, Option, none,
  some, Bytes, List, [], ◌∷◌, map, set, replicate, ◌>>=◌, arith,
}
use vek.ObjMap.{
  Slot, live, ObjMap, slot, get_loop, free_loop, set_loop, home, next, Target, update, insert,
  remember, reuse, obj_map_get, rehash, rehash_entry, map_grow, grown_capacity, set_in, write,
  obj_map_set, needs_growth,
}
use vek.ObjMap
use vek.Intern.{
  Entry, empty, tombstone, string, InternTable, hash_string, home_index, next_index, entry_at,
  lookup_loop, intern_table_find, null_loop, rehash_strings, intern_table_grow,
}
use vek.Intern.Codes.{code, decode, decode-code, bytes_eq-code}

abbrev pub hash_code : ℕ → ℕ
unfolding decode
hash_code n = hash_string (decode n 0 n)

pub hash_code-code : (bs : Bytes) → hash_code (code bs) ≡ hash_string bs
unfolding decode
hash_code-code bs = ap hash_string (decode-code bs (code bs) (omega arith))

abbrev pub slot_of : Entry → Slot ℕ
slot_of empty = ObjMap.empty
slot_of tombstone = ObjMap.tombstone
slot_of (string address chars) = live (code chars) address

abbrev pub map_of : InternTable → ObjMap ℕ
map_of t = record { length = t.count; capacity = t.capacity; entries = map slot_of t.entries }

pub slot-map : (es : List Entry) (i : ℕ) → slot (map slot_of es) i ≡ slot_of (entry_at es i)
slot-map [] i = refl
slot-map (e ∷ es) zero = refl
slot-map (e ∷ es) (suc i) = slot-map es i

pub set-map :
    (es : List Entry) (i : ℕ) (e : Entry)
    → map slot_of (set es i e) ≡ set (map slot_of es) i (slot_of e)
set-map [] i e = refl
set-map (x ∷ es) zero e = refl
set-map (x ∷ es) (suc i) e = ap (λ r. slot_of x ∷ r) (set-map es i e)

replicate-map : (n : ℕ) → map slot_of (replicate n empty) ≡ replicate n (slot_of empty)
replicate-map zero = refl
replicate-map (suc n) = ap (λ r. slot_of empty ∷ r) (replicate-map n)

pub home-code :
    (capacity : ℕ) (bs : Bytes) → home hash_code capacity (code bs) ≡ home_index capacity bs
home-code capacity bs = rw (hash_code-code bs) refl

-- A loop of one kind does what the other does, if it does so from the next slot on.
module _ (fuel capacity : ℕ) (es : List Entry) (chars : Bytes) (i : ℕ) where
  lookup_step :
      get_loop fuel capacity (map slot_of es) (code chars) (next capacity i)
        ≡ lookup_loop fuel capacity es chars (next_index capacity i)
      → (e : Entry) → slot (map slot_of es) i ≡ slot_of e
      → entry_at es i ≡ e
      → get_loop (suc fuel) capacity (map slot_of es) (code chars) i
        ≡ lookup_loop (suc fuel) capacity es chars i
  unfolding get_loop lookup_loop
  lookup_step ih empty s p = ground (arith, s, p)
  lookup_step ih tombstone s p = ground (arith, s, p, ih)
  lookup_step ih (string a bs) s p = ground (arith, s, p, ih, bytes_eq-code bs chars)

  null_step :
      free_loop fuel capacity (map slot_of es) (next capacity i)
        ≡ null_loop fuel capacity es (next_index capacity i)
      → (e : Entry) → slot (map slot_of es) i ≡ slot_of e
      → entry_at es i ≡ e
      → free_loop (suc fuel) capacity (map slot_of es) i ≡ null_loop (suc fuel) capacity es i
  unfolding free_loop null_loop
  null_step ih empty s p = ground (arith, s, p)
  null_step ih tombstone s p = ground (arith, s, p, ih)
  null_step ih (string a bs) s p = ground (arith, s, p, ih)

lookup_as_get :
    (fuel capacity : ℕ) (es : List Entry) (chars : Bytes) (i : ℕ)
    → get_loop fuel capacity (map slot_of es) (code chars) i ≡ lookup_loop fuel capacity es chars i
unfolding get_loop lookup_loop
lookup_as_get zero capacity es chars i = refl
lookup_as_get (suc fuel) capacity es chars i =
    lookup_step fuel capacity es chars i (lookup_as_get fuel capacity es chars (next capacity i))
      (entry_at es i) (slot-map es i) refl

null_as_free :
    (fuel capacity : ℕ) (es : List Entry) (i : ℕ)
    → free_loop fuel capacity (map slot_of es) i ≡ null_loop fuel capacity es i
unfolding free_loop null_loop
null_as_free zero capacity es i = refl
null_as_free (suc fuel) capacity es i =
    null_step fuel capacity es [] i (null_as_free fuel capacity es (next capacity i))
      (entry_at es i) (slot-map es i) refl

-- Looking a string up is looking its code up in the map.
pub find_as_get :
    (fuel : ℕ) (t : InternTable) (chars : Bytes)
    → obj_map_get hash_code fuel (map_of t) (code chars) ≡ intern_table_find fuel t chars
unfolding obj_map_get intern_table_find
find_as_get fuel t chars =
    rw
      (
        home-code t.capacity chars,
        lookup_as_get fuel t.capacity t.entries chars (home_index t.capacity chars),
      )
      refl

abbrev images : Option (List Entry) → Option (List (Slot ℕ))
images none = none
images (some es) = some (map slot_of es)

rehash_as_map :
    (capacity : ℕ) (es new_entries : List Entry)
    → rehash hash_code capacity (map slot_of es) (map slot_of new_entries)
      ≡ images (rehash_strings capacity es new_entries)
unfolding rehash rehash_strings rehash_entry
rehash_as_map capacity [] new_entries = refl
rehash_as_map capacity (empty ∷ es) new_entries = rehash_as_map capacity es new_entries
rehash_as_map capacity (tombstone ∷ es) new_entries = rehash_as_map capacity es new_entries
rehash_as_map capacity (string a bs ∷ es) new_entries =
    elim (Option-cases (null_loop capacity capacity new_entries (home_index capacity bs))) [
      | inl full ↦
          rw
            (
              rehash,
              home-code capacity bs,
              null_as_free capacity capacity new_entries (home_index capacity bs),
              full,
            )
            refl
      | inr (i, found) ↦
          rw
            (
              rehash,
              home-code capacity bs,
              null_as_free capacity capacity new_entries (home_index capacity bs),
              found,
            )
            (ap (rehash hash_code capacity (map slot_of es))
                (sym (set-map new_entries i (string a bs)))
              ∙ rehash_as_map capacity es (set new_entries i (string a bs)))
    ]

abbrev pub maps : Option InternTable → Option (ObjMap ℕ)
maps none = none
maps (some t) = some (map_of t)

abbrev filled : ObjMap ℕ → ℕ → Option (List (Slot ℕ)) → Option (ObjMap ℕ)
filled m capacity none = none
filled m capacity (some es) = some (record m { capacity = capacity; entries = es })

map_grow-filled :
    (m : ObjMap ℕ)
    → map_grow hash_code m
      ≡ filled m (grown_capacity m.capacity) (
          rehash hash_code
            (grown_capacity m.capacity)
            m.entries
            (replicate (grown_capacity m.capacity) (slot_of empty)))
unfolding map_grow
map_grow-filled m =
    elim (Option-cases (
      rehash hash_code (grown_capacity m.capacity) m.entries
        (replicate (grown_capacity m.capacity) (slot_of empty)))) [
          | inl e ↦ rw (map_grow, e) refl
          | inr (es, e) ↦ rw (map_grow, e) refl
        ]

maps-filled :
    (t : InternTable) (capacity : ℕ) (made : Option (List Entry))
    → filled (map_of t) capacity (images made)
      ≡ maps (made >>= λ es. some (record t { entries = es; capacity = capacity }))
maps-filled t capacity none = refl
maps-filled t capacity (some es) = refl

pub grow_as_map :
    (t : InternTable) → 8 ≤ t.capacity → map_grow hash_code (map_of t) ≡ maps (intern_table_grow t)
unfolding intern_table_grow
grow_as_map t h =
    let capacity = t.capacity * 2 % 2 ^ 32 in
    let same : grown_capacity t.capacity ≡ capacity = ground arith in
    map_grow-filled (map_of t)
    ∙ ap
        (λ c.
          filled (map_of t) c
            (rehash hash_code c (map slot_of t.entries) (replicate c (slot_of empty))))
        same
    ∙ ap (λ r. filled (map_of t) capacity (rehash hash_code capacity (map slot_of t.entries) r))
        (sym (replicate-map capacity))
    ∙ ap (filled (map_of t) capacity) (rehash_as_map capacity t.entries (replicate capacity empty))
    ∙ maps-filled t capacity (rehash_strings capacity t.entries (replicate capacity empty))
