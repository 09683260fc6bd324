-- ===== src/ObjMap/Spin.antt =====
-- The loops of src/object.c do not end on a table with no empty slot that lacks the key. Deleting leaves
-- tombstones that `length` does not count, so that such a table is never due to grow.
use vek.Prelude.{ℕ, ◌^◌, ◌≤◌, ◌<◌, ◌≡◌, ◌≢◌, ◌∙◌, false, none, arith}
use vek.ObjMap.{
  live, slot, ObjMap, home, find_loop, set_loop, obj_map_get, obj_map_set, obj_map_delete, set_in,
  needs_growth,
}
use vek.ObjMap.Probe.{place, place-lt}
use vek.ObjMap.Loops.{IsPassed, IsFull, met, get_loop_spins, find_loop_spins}
use vek.ObjMap.SetLoop.{set_loop_spins}
use vek.ObjMap.Lookup.{IsPassed-of}
use vek.ObjMap.Valid.{two_pow_le}
use vek.ObjMap.Get.{get_as_loop, set_as_loop, find_as_loop}

-- every slot is a tombstone or holds another key
pub record IsClogged {ℓ} {V : Type ℓ} (m : ObjMap V) (key : ℕ) : Type ℓ where
  pub k : ℕ
  pub low : 3 ≤ k
  pub size : m.capacity ≡ 2 ^ k
  pub full : (i : ℕ) → i < 2 ^ k → IsFull (slot m.entries i)
  pub absent : (i : ℕ) (v : V) → slot m.entries i ≢ live key v

module _ {ℓ} {V : Type ℓ} (hash : ℕ → ℕ) (m : ObjMap V) (key fuel : ℕ) (c : IsClogged m key) where
  passes : (e : ℕ) → IsPassed key (met c.k m.entries (hash key) e)
  passes e =
      let i = place (2 ^ c.k) (hash key) e in
      IsPassed-of key (slot m.entries i) (c.full i (place-lt c.k (hash key) e)) (c.absent i)

  find_none : find_loop fuel m.capacity m.entries key (home hash m.capacity key) ≡ none
  find_none =
      find_as_loop hash m c.k c.size c.low key fuel
      ∙ find_loop_spins c.k m.entries key (hash key) fuel passes

  set_none : set_loop fuel m.capacity m.entries key none (home hash m.capacity key) ≡ none
  set_none =
      set_as_loop hash m c.k c.size c.low key fuel
      ∙ set_loop_spins c.k m.entries key (hash key) fuel 0 none passes

  set_in-none : (v : V) → set_in hash fuel m key v ≡ none
  unfolding set_in
  set_in-none v = ground (arith, set_none)

  -- On a map with no empty slot that is not due to grow, looking up, deleting or setting a key that
  -- the map does not hold never ends: the loops run through any number of rounds.
  pub clogged_spins :
      (v : V)
      → needs_growth m ≡ false
      → (obj_map_get hash fuel m key ≡ none)
        × (obj_map_delete hash fuel m key ≡ none)
        × (obj_map_set hash fuel m key v ≡ none)
  unfolding obj_map_delete obj_map_set
  clogged_spins v stays = (
    get_as_loop hash m c.k c.size c.low key fuel
        ∙ get_loop_spins c.k m.entries key (hash key) fuel passes,
    ground (arith, find_none, c.size, two_pow_le 3 c.k c.low),
    ground (arith, stays, set_in-none v),
  )
