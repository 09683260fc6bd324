-- ===== src/Intern/Canonical.antt =====
-- Strings are canonical in src/object.c: the same bytes give the same object, which the maps rely on when
-- they compare keys by address.
use vek.Prelude.{
  ℕ, ◌+◌, ◌*◌, ◌^◌, ◌≤◌, ◌<◌, ◌≡◌, ◌≢◌, refl, sym, ap, ap₂, ◌∙◌, subst, ◌↔◌, ◌⊎◌, inl, inr, Bool,
  true, false, Option, Option-cases, some, Bytes, length, length-map, arith,
}
use vek.ObjMap.{live}
use vek.ObjMap.Grow.{Held, HasEmpty}
use vek.ObjMap.Valid.{IsMap, two_pow_le}
use vek.ObjMap.Get.{obj_map_get-Answers}
use vek.ObjMap.Set.{IsAssigned, obj_map_set-IsAssigned}
use vek.Intern.{
  Entry, empty, tombstone, string, InternTable, entry_at, intern_table_find, intern_table_insert,
  obj_string_new,
}
use vek.Intern.Codes.{code, code-injective}
use vek.Intern.AsMap.{hash_code, slot_of, map_of, slot-map, find_as_get}
use vek.Intern.Insert.{insert_as_map}

-- the table holds the string at an address
abbrev pub Holds : InternTable → Bytes → ℕ → Type 0
Holds t chars a = (i : ℕ) × (entry_at t.entries i ≡ string a chars)

abbrev pub HasNull : InternTable → Type 0
HasNull t = (i : ℕ) × (i < length t.entries) × (entry_at t.entries i ≡ empty)

-- A table, seen as a map, is valid, and it has at least 8 slots.
pub record IsInternTable (t : InternTable) : Type 0 where
  pub valid : IsMap hash_code (map_of t)
  pub big : 8 ≤ t.capacity

Held-of :
    (t : InternTable) (chars : Bytes) (a : ℕ)
    → Holds t chars a
    → Held (map_of t).entries (code chars) a
Held-of t chars a (i, e) = (i, slot-map t.entries i ∙ ap slot_of e)

slot_of-live :
    (e : Entry) (chars : Bytes) (a : ℕ) → slot_of e ≡ live (code chars) a → e ≡ string a chars
slot_of-live empty chars a h = cc
slot_of-live tombstone chars a h = cc
slot_of-live (string b bs) chars a h = ap₂ string (cc h) (code-injective bs chars (cc h))

pub Holds-of :
    (t : InternTable) (chars : Bytes) (a : ℕ)
    → Held (map_of t).entries (code chars) a
    → Holds t chars a
Holds-of t chars a (i, e) =
    (i, slot_of-live (entry_at t.entries i) chars a (sym (slot-map t.entries i) ∙ e))

HasEmpty-of : (t : InternTable) → HasNull t → HasEmpty (map_of t).entries
HasEmpty-of t (i, lt, e) =
    (i, rw (length-map t.entries slot_of) lt, slot-map t.entries i ∙ ap slot_of e)

-- Looking a string up in a valid table with a NULL slot ends within `capacity` rounds, with the address
-- that the table holds for it, if any.
pub find-Holds :
    (fuel : ℕ) (t : InternTable) (chars : Bytes)
    → IsInternTable t
    → HasNull t
    → t.capacity ≤ fuel
    → (o : Option ℕ) × (intern_table_find fuel t chars ≡ some o)
      × ((a : ℕ) → (o ≡ some a) ↔ Holds t chars a)
find-Holds fuel t chars v n h =
    let (o, e, answers) =
      obj_map_get-Answers hash_code (map_of t) v.valid (code chars) fuel h
        (inr (HasEmpty-of t n)) in
    (
      o,
      sym (find_as_get fuel t chars) ∙ e,
      λ a. (λ p. Holds-of t chars a ((answers a).0 p), λ p. (answers a).1 (Held-of t chars a p)),
    )

-- The table after `chars` was inserted at `a`.
pub record IsInserted (t t' : InternTable) (chars : Bytes) (a : ℕ) : Type 0 where
  pub valid : IsInternTable t'
  pub holds : Holds t' chars a
  pub others : (s : Bytes) (b : ℕ) → s ≢ chars → Holds t s b ↔ Holds t' s b

big_of :
    (t : InternTable) (chars : Bytes) (a : ℕ)
    → IsMap hash_code (map_of t)
    → Holds t chars a
    → 8 ≤ t.capacity
big_of t chars a v h = elim v.shape [
  | inl (z, nil) ↦ cc (nil, slot-map t.entries h.0, h.1)
  | inr (k, low, high, size, table) ↦ omega (arith, size, two_pow_le 3 k low)
]

insert-IsInserted :
    (fuel : ℕ) (t : InternTable) (chars : Bytes) (a : ℕ)
    → IsInternTable t
    → HasNull t
    → 2 * t.capacity + 8 ≤ fuel
    → t.capacity < 2 ^ 30
    → ((b : ℕ) → ¬ Holds t chars b)
    → (t' : InternTable) × (intern_table_insert fuel t a chars ≡ some t') × IsInserted t t' chars a
insert-IsInserted fuel t chars a v n h small absent =
    let (m, new, e, s) =
      obj_map_set-IsAssigned hash_code (map_of t) v.valid (code chars) fuel a h small
        (inr (HasEmpty-of t n)) in
    let is_new =
      elim new as (λ b. b ≡ new → b ≡ true) [
        | true ↦ λ p. refl
        | false ↦
            λ p. let (w, held) = s.was_old (sym p) in absurd (absent w (Holds-of t chars w held))
      ]
        refl in
    let (t', made, same) =
      insert_as_map fuel t chars a m v.big (e ∙ ap (λ b. some (m, b)) is_new) in
    let kept = subst (λ x. IsAssigned hash_code (map_of t) x (code chars) a new) (sym same) s in
    let holds = Holds-of t' chars a kept.held in
    (
      t',
      made,
      record {
        valid = record { valid = kept.valid; big = big_of t' chars a kept.valid holds };
        holds = holds;
        others = λ x b ne.
            let apart = λ (p : code x ≡ code chars). ne (code-injective x chars p) in
            (
              λ p. Holds-of t' x b (kept.kept (code x) b apart (Held-of t x b p)),
              λ p. Holds-of t x b (kept.only (code x) b apart (Held-of t' x b p)),
            );
      },
    )

-- what `obj_string_new` gives: the address, whether it is new, and the table
pub record IsCanonical (t t' : InternTable) (chars : Bytes) (fresh a : ℕ) (new : Bool)
    : Type 0 where
  pub valid : IsInternTable t'
  pub holds : Holds t' chars a
  pub others : (s : Bytes) (b : ℕ) → s ≢ chars → Holds t s b ↔ Holds t' s b
  pub old : (new ≡ true) ⊎ (Holds t chars a × (t' ≡ t))
  pub made : (new ≡ false) ⊎ ((a ≡ fresh) × ((b : ℕ) → ¬ Holds t chars b))

-- Making a string ends on a valid table below 2 ^ 30 slots with a NULL slot. The table that it leaves is
-- valid, holds the string at the returned address and every other string where it was; a string that the
-- table held is returned at its address, with the table as it was, and any other is made at the fresh one.
pub obj_string_new-IsCanonical :
    (fuel : ℕ) (t : InternTable) (chars : Bytes) (fresh : ℕ)
    → IsInternTable t
    → HasNull t
    → 2 * t.capacity + 8 ≤ fuel
    → t.capacity < 2 ^ 30
    → (a : ℕ) × (new : Bool) × (t' : InternTable) × (obj_string_new fuel t fresh chars
        ≡ some (a, new, t'))
      × IsCanonical t t' chars fresh a new
unfolding obj_string_new
obj_string_new-IsCanonical fuel t chars fresh v n h small =
    let (o, e, answers) = find-Holds fuel t chars v n (omega arith) in
    elim (Option-cases o) [
      | inr (a, found) ↦ (
        a,
        false,
        t,
        rw (obj_string_new, e, found) refl,
        record {
          valid = v;
          holds = (answers a).0 found;
          others = λ x b ne. (λ p. p, λ p. p);
          old = inr ((answers a).0 found, refl);
          made = inl refl;
        },
      )
      | inl gone ↦
          let absent : (b : ℕ) → ¬ Holds t chars b = λ b p. cc ((answers b).1 p, gone) in
          let (t', e', i) = insert-IsInserted fuel t chars fresh v n h small absent in
          (
            fresh,
            true,
            t',
            rw (obj_string_new, e, gone, e') refl,
            record {
              valid = i.valid;
              holds = i.holds;
              others = i.others;
              old = inl refl;
              made = inr (refl, absent);
            },
          )
    ]
