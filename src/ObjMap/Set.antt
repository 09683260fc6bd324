-- ===== src/ObjMap/Set.antt =====
-- `obj_map_set` of src/object.c binds its key and nothing else.
use vek.Prelude.{
  ℕ, ◌+◌, ◌*◌, ◌%◌, ◌^◌, ◌≤◌, ◌<◌, ◌≡◌, ◌≢◌, ◌⊎◌, inl, inr, refl, sym, ap, subst, ◌∙◌, Bool, true,
  false, none, some, List, arith, length, set, Bool-cases,
}
use vek.ObjMap.{
  Slot, empty, tombstone, live, slot, ObjMap, needs_growth, set_loop, write, set_in, obj_map_set,
  insert, u32_mod,
}
use vek.ObjMap.Probe.{place, place-lt}
use vek.ObjMap.Loops.{IsFull, IsLive, IsRoom}
use vek.ObjMap.Table.{
  IsTable, slot-lt, slot-set_self, slot-set_ne, count_live, is_live, count_live-set,
}
use vek.ObjMap.Writes.{slot_cases, live_key, write-IsTable}
use vek.ObjMap.Lookup.{set_held, set_absent}
use vek.ObjMap.Grow.{Held, HasEmpty}
use vek.ObjMap.Valid.{
  IsMap, IsShaped, IsGrown, Held-cases, map_grow-IsGrown, two_pow_le, count_live-le,
}
use vek.ObjMap.Get.{set_as_loop}

-- What is in the map after `obj_map_set` and what it returned: whether the key was new.
pub record IsAssigned {ℓ} {V : Type ℓ} (hash : ℕ → ℕ) (m m' : ObjMap V) (key : ℕ) (v : V)
    (new : Bool) : Type ℓ where
  pub valid : IsMap hash m'
  pub held : Held m'.entries key v
  pub kept : (j : ℕ) (w : V) → j ≢ key → Held m.entries j w → Held m'.entries j w
  pub only : (j : ℕ) (w : V) → j ≢ key → Held m'.entries j w → Held m.entries j w
  pub was_new : new ≡ true → (w : V) → ¬ Held m.entries key w
  pub was_old : new ≡ false → (w : V) × Held m.entries key w

-- a write of the key into a slot that holds no other key
module _ {ℓ} {V : Type ℓ} (entries : List (Slot V)) (i key : ℕ) (v : V) (lt : i < length entries)
    (no_other : (j : ℕ) (w : V) → j ≢ key → slot entries i ≢ live j w) where
  write_kept : (j : ℕ) (w : V) → j ≢ key → Held entries j w → Held (set entries i (live key v)) j w
  write_kept j w n (a, e) = (
    a,
    slot-set_ne entries i a (live key v) lt (λ s. no_other j w n (ap (slot entries) s ∙ e)) ∙ e,
  )

  write_only : (j : ℕ) (w : V) → j ≢ key → Held (set entries i (live key v)) j w → Held entries j w
  write_only j w n (a, e) = elim (slot_cases entries i (live key v) lt a j w e) [
    | inl (p, q) ↦ absurd (n (sym (live_key q)))
    | inr (p, q) ↦ (a, q)
  ]

module _ {ℓ} {V : Type ℓ} (hash : ℕ → ℕ) (m : ObjMap V) (k : ℕ) (low : 3 ≤ k) (high : k ≤ 30)
    (size : m.capacity ≡ 2 ^ k) (t : IsTable hash k m.entries)
    (counted : m.length ≡ count_live m.entries) (key fuel : ℕ) (v : V)
    (enough : m.capacity ≤ fuel) where
  abbrev Sets : Type ℓ
  Sets =
      (m' : ObjMap V) × (new : Bool) × (set_in hash fuel m key v ≡ some (m', new))
      × IsAssigned hash m m' key v new

  set_in-held : (i : ℕ) (u : V) → slot m.entries i ≡ live key u → Sets
  unfolding set_in write
  set_in-held i u e =
      let lt : i < length m.entries = slot-lt m.entries i (subst IsFull (sym e) tt) in
      let table =
        write-IsTable hash k m.entries t i lt key v (λ j w p. t.distinct i j key u w e p)
          (t.reached i key u e) in
      let found =
        set_as_loop hash m k size low key fuel
        ∙ set_held hash k m.entries t key fuel (omega (arith, size)) i u e in
      let no_other = λ (j : ℕ) (w : V) (n : j ≢ key) (p : slot m.entries i ≡ live j w).
        n (live_key (sym p ∙ e)) in
      (
        record m { entries = set m.entries i (live key v) },
        false,
        ground (arith, found),
        record {
          valid = record {
            distinct = table.distinct;
            counted =
                omega (arith, counted, ap is_live e, count_live-set m.entries i (live key v) lt);
            shape = inr (k, low, high, size, table);
          };
          held = (i, slot-set_self m.entries i (live key v) lt);
          kept = write_kept m.entries i key v lt no_other;
          only = write_only m.entries i key v lt no_other;
          was_new = λ f w h. cc;
          was_old = λ _. (u, (i, e));
        },
      )

  is_live_vacant : (s : Slot V) → ¬ IsLive s → is_live s ≡ 0
  is_live_vacant empty n = refl
  is_live_vacant tombstone n = refl
  is_live_vacant (live j w) n = absurd (n tt)

  set_in-room :
      ((i : ℕ) (w : V) → slot m.entries i ≢ live key w)
      → (index : ℕ)
      → set_loop fuel (2 ^ k) m.entries key none (place (2 ^ k) (hash key) 0) ≡ some (insert index)
      → IsRoom k m.entries (hash key) index
      → Sets
  unfolding set_in write
  set_in-room absent index found room =
      let lt : index < length m.entries =
        rw t.size (subst (λ i. i < 2 ^ k) room.at (place-lt k (hash key) room.d)) in
      let table =
        write-IsTable hash k m.entries t index lt key v (λ j w p. absurd (absent j w p))
          (record { d = room.d; near = room.near; at = room.at; full = room.full }) in
      let no_other = λ (j : ℕ) (w : V) (n : j ≢ key) (p : slot m.entries index ≡ live j w).
        room.vacant (subst IsLive (sym p) tt) in
      (
        record m { length = (m.length + 1) % u32_mod; entries = set m.entries index (live key v) },
        true,
        ground (arith, set_as_loop hash m k size low key fuel ∙ found),
        record {
          valid = record {
            distinct = table.distinct;
            counted = omega (
              arith,
              counted,
              is_live_vacant (slot m.entries index) room.vacant,
              count_live-set m.entries index (live key v) lt,
              count_live-le m.entries,
              t.size,
              two_pow_le k 30 high,
            );
            shape = inr (k, low, high, size, table);
          };
          held = (index, slot-set_self m.entries index (live key v) lt);
          kept = write_kept m.entries index key v lt no_other;
          only = write_only m.entries index key v lt no_other;
          was_new = λ _ w (i, e). absent i w e;
          was_old = λ f. cc;
        },
      )

  set_in-Sets :
      HasEmpty m.entries
      → ((u : V) × Held m.entries key u) ⊎ ((i : ℕ) (u : V) → slot m.entries i ≢ live key u)
      → Sets
  set_in-Sets _ (inl (u, (i, e))) = set_in-held i u e
  set_in-Sets (i, lt, e) (inr absent) =
      let (index, found, room) =
        set_absent hash k m.entries t key fuel (omega (arith, size)) absent i (rw t.size at lt) e in
      set_in-room absent index found room

-- The growth keeps what the map holds, so that it can be left out of the outcome.
module _ {ℓ} {V : Type ℓ} (hash : ℕ → ℕ) (m grown m' : ObjMap V) (key : ℕ) (v : V) (new : Bool)
    (g : IsGrown hash m grown) (s : IsAssigned hash grown m' key v new) where
  IsSet-grown : IsAssigned hash m m' key v new
  IsSet-grown = record {
    valid = s.valid;
    held = s.held;
    kept = λ j w n h. s.kept j w n (g.kept j w h);
    only = λ j w n h. g.only j w (s.only j w n h);
    was_new = λ e w h. s.was_new e w (g.kept key w h);
    was_old = λ e. let (w, h) = s.was_old e in (w, g.only key w h);
  }

module _ {ℓ} {V : Type ℓ} (hash : ℕ → ℕ) (m : ObjMap V) (valid : IsMap hash m) (key fuel : ℕ)
    (v : V) (enough : 2 * m.capacity + 8 ≤ fuel) where
  abbrev pub Outcome : Type ℓ
  Outcome =
      (m' : ObjMap V) × (new : Bool) × (obj_map_set hash fuel m key v ≡ some (m', new))
      × IsAssigned hash m m' key v new

  set_growing : needs_growth m ≡ true → m.capacity < 2 ^ 30 → Outcome
  unfolding obj_map_set
  set_growing grows small =
      let (grown, found, g) = map_grow-IsGrown hash m valid small in
      let (m', new, r, s) =
        set_in-Sets hash grown g.k g.low g.high g.capacity g.table g.counted key fuel v
          (omega (arith, g.bound)) g.room (Held-cases grown.entries key) in
      (m', new, ground (arith, grows, found, r), IsSet-grown hash m grown m' key v new g s)

  set_staying : IsShaped hash m → needs_growth m ≡ false → HasEmpty m.entries → Outcome
  unfolding obj_map_set
  set_staying (inl (z, nil)) stays (i, lt, e) = absurd (omega (arith, ap length nil))
  set_staying (inr (k, low, high, size, t)) stays room =
      let (m', new, r, s) =
        set_in-Sets hash m k low high size t valid.counted key fuel v (omega arith) room
          (Held-cases m.entries key) in
      (m', new, ground (arith, stays, r), s)

  -- On a valid map below 2 ^ 30 slots that is due to grow or has an empty slot, `obj_map_set` ends,
  -- and the map is valid, holds the value for the key, and holds what it held for every other key;
  -- it returns whether the map held nothing for the key.
  pub obj_map_set-IsAssigned :
      m.capacity < 2 ^ 30 → (needs_growth m ≡ true) ⊎ HasEmpty m.entries → Outcome
  obj_map_set-IsAssigned small room = elim (Bool-cases (needs_growth m)) [
    | inl grows ↦ set_growing grows small
    | inr stays ↦ elim room [
      | inl grows ↦ set_growing grows small
      | inr vacant ↦ set_staying valid.shape stays vacant
    ]
  ]
