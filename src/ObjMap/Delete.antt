-- ===== src/ObjMap/Delete.antt =====
-- `obj_map_delete` of src/object.c unbinds its key and nothing else.
use vek.Prelude.{
  ℕ, ◌+◌, ◌-◌, ◌%◌, ◌^◌, ◌≤◌, ◌<◌, ◌≡◌, ◌≢◌, ◌⊎◌, inl, inr, refl, sym, ap, subst, ◌∙◌, Bool, true,
  false, Option, none, some, arith, length, set,
}
use vek.ObjMap.{tombstone, live, slot, ObjMap, home, find_loop, obj_map_delete, u32_mod}
use vek.ObjMap.Loops.{IsFull}
use vek.ObjMap.Table.{IsTable, slot-lt, slot-set_self, slot-set_ne, is_live, count_live-set}
use vek.ObjMap.Writes.{live_key, erase-IsTable, erased}
use vek.ObjMap.Lookup.{find_held, find_absent}
use vek.ObjMap.Grow.{Held}
use vek.ObjMap.Valid.{IsMap, IsShaped, Held-cases, two_pow_le, count_live-le}
use vek.ObjMap.Get.{find_as_loop, Ends}

-- What is in the map after `obj_map_delete` and what it returned: whether the key was there.
pub record IsDeleted {ℓ} {V : Type ℓ} (hash : ℕ → ℕ) (m m' : ObjMap V) (key : ℕ) (found : Bool)
    : Type ℓ where
  pub valid : IsMap hash m'
  pub gone : (w : V) → ¬ Held m'.entries key w
  pub kept : (j : ℕ) (w : V) → j ≢ key → Held m.entries j w → Held m'.entries j w
  pub only : (j : ℕ) (w : V) → Held m'.entries j w → Held m.entries j w
  pub was_there : found ≡ true → (w : V) × Held m.entries key w
  pub was_not : found ≡ false → m' ≡ m

module _ {ℓ} {V : Type ℓ} (hash : ℕ → ℕ) (m : ObjMap V) (valid : IsMap hash m) (key fuel : ℕ)
    (enough : m.capacity ≤ fuel) where
  abbrev pub Outcome : Type ℓ
  Outcome =
      (m' : ObjMap V) × (found : Bool) × (obj_map_delete hash fuel m key ≡ some (m', found))
      × IsDeleted hash m m' key found

  nothing-IsDeleted :
      ((i : ℕ) (w : V) → slot m.entries i ≢ live key w) → IsDeleted hash m m key false
  nothing-IsDeleted absent = record {
    valid = valid;
    gone = λ w (i, e). absent i w e;
    kept = λ j w n h. h;
    only = λ j w h. h;
    was_there = λ f. cc;
    was_not = λ _. refl;
  }

  past_test :
      (k : ℕ) (r : Option ℕ)
      → 3 ≤ k
      → m.capacity ≡ 2 ^ k
      → find_loop fuel m.capacity m.entries key (home hash m.capacity key) ≡ some r
      → obj_map_delete hash fuel m key ≡ elim r [
        | none ↦ some (m, false)
        | some index ↦ some (
          record m {
            length = (m.length + u32_mod - 1) % u32_mod;
            entries = set m.entries index tombstone;
          },
          true,
        )
      ]
  unfolding obj_map_delete
  past_test k none low size found = ground (arith, found, two_pow_le 3 k low)
  past_test k (some index) low size found = ground (arith, found, two_pow_le 3 k low)

  module _ (k : ℕ) (low : 3 ≤ k) (high : k ≤ 30) (size : m.capacity ≡ 2 ^ k)
      (t : IsTable hash k m.entries) where
    not_there :
        (i : ℕ) (u : V) (lt : i < length m.entries)
        → slot m.entries i ≡ live key u
        → (a : ℕ) (w : V) → slot (set m.entries i tombstone) a ≢ live key w
    not_there i u lt e a w q =
        let same = valid.distinct i a key u w e (erased hash k m.entries t i lt a key w q) in
        cc (slot-set_self m.entries i tombstone lt, ap (slot (set m.entries i tombstone)) same, q)

    delete_held : (i : ℕ) (u : V) → slot m.entries i ≡ live key u → Outcome
    delete_held i u e =
        let lt : i < length m.entries = slot-lt m.entries i (subst IsFull (sym e) tt) in
        let table = erase-IsTable hash k m.entries t i lt in
        let found =
          find_as_loop hash m k size low key fuel
          ∙ find_held hash k m.entries t key fuel (omega (arith, size)) i u e in
        (
          record m {
            length = (m.length + u32_mod - 1) % u32_mod;
            entries = set m.entries i tombstone;
          },
          true,
          past_test k (some i) low size found,
          record {
            valid = record {
              distinct = table.distinct;
              counted = omega (
                arith,
                valid.counted,
                ap is_live e,
                count_live-set m.entries i tombstone lt,
                count_live-le m.entries,
                t.size,
                two_pow_le k 30 high,
              );
              shape = inr (k, low, high, size, table);
            };
            gone = λ w (a, q). not_there i u lt e a w q;
            kept = λ j w n (a, q). (
              a,
              slot-set_ne m.entries i a tombstone lt
                    (λ s. n (live_key (sym q ∙ ap (slot m.entries) (sym s) ∙ e)))
                  ∙ q,
            );
            only = λ j w (a, q). (a, erased hash k m.entries t i lt a j w q);
            was_there = λ _. (u, (i, e));
            was_not = λ f. cc;
          },
        )

    delete_table :
        Ends m
        → ((u : V) × Held m.entries key u) ⊎ ((i : ℕ) (u : V) → slot m.entries i ≢ live key u)
        → Outcome
    delete_table ends (inl (u, (i, e))) = delete_held i u e
    delete_table (inl z) (inr absent) = absurd (omega (arith, size, two_pow_le 3 k low))
    delete_table (inr (i, lt, e)) (inr absent) = (
      m,
      false,
      past_test k none low size (
          find_as_loop hash m k size low key fuel
          ∙ find_absent hash k m.entries t key fuel (omega (arith, size)) absent i (rw t.size at lt)
              e),
      nothing-IsDeleted absent,
    )

  delete_shaped : IsShaped hash m → Ends m → Outcome
  unfolding obj_map_delete
  delete_shaped (inl (z, nil)) ends =
      (m, false, ground arith, nothing-IsDeleted (λ i v e. cc (ap (λ es. slot es i) nil)))
  delete_shaped (inr (k, low, high, size, t)) ends =
      delete_table k low high size t ends (Held-cases m.entries key)

  -- On a valid map that is fresh or has an empty slot, `obj_map_delete` ends within `capacity` rounds:
  -- the map is valid, holds nothing for the key, and what it held for every other key and no more; it
  -- returns true only if the map held the key, and leaves the map as it was if it returns false.
  pub obj_map_delete-IsDeleted : Ends m → Outcome
  obj_map_delete-IsDeleted = delete_shaped valid.shape
