-- ===== src/ObjMap/Get.antt =====
-- `obj_map_get`, `obj_map_set` and `obj_map_delete` of src/object.c are those of a finite map.
use vek.Prelude.{ℕ, ◌^◌, ◌≤◌, ◌≡◌, ◌≢◌, ◌⊎◌, ◌↔◌, inl, inr, ap, ap₂, ◌∙◌, Option, none, some, arith}
use mathlib.Core.Option.{some-injective}
use vek.ObjMap.{live, slot, ObjMap, home, get_loop, find_loop, set_loop, obj_map_get}
use vek.ObjMap.Probe.{place, home-place}
use vek.ObjMap.Lookup.{get_held, get_absent}
use vek.ObjMap.Grow.{Held, HasEmpty}
use vek.ObjMap.Valid.{IsMap, IsShaped, Held-cases, two_pow_le}

-- A probe ends: the map is fresh, or some slot is empty.
abbrev pub Ends {ℓ} : {V : Type ℓ} → ObjMap V → Type ℓ
Ends m = (m.capacity ≡ 0) ⊎ HasEmpty m.entries

-- The operations past their test for a fresh map, at a table of 2 ^ k slots.
module _ {ℓ} {V : Type ℓ} (hash : ℕ → ℕ) (m : ObjMap V) (k : ℕ) (size : m.capacity ≡ 2 ^ k)
    (low : 3 ≤ k) (key fuel : ℕ) where
  start : home hash m.capacity key ≡ place (2 ^ k) (hash key) 0
  start = ap (λ c. home hash c key) size ∙ home-place hash k key

  pub get_as_loop :
      obj_map_get hash fuel m key ≡ get_loop fuel (2 ^ k) m.entries key (place (2 ^ k) (hash key) 0)
  get_as_loop = past_test ∙ ap₂ (λ c i. get_loop fuel c m.entries key i) size start
    where
      past_test :
          obj_map_get hash fuel m key
          ≡ get_loop fuel m.capacity m.entries key (home hash m.capacity key)
      past_test = unfold obj_map_get in ground (arith, two_pow_le 3 k low)

  pub set_as_loop :
      set_loop fuel m.capacity m.entries key none (home hash m.capacity key)
      ≡ set_loop fuel (2 ^ k) m.entries key none (place (2 ^ k) (hash key) 0)
  set_as_loop = ap₂ (λ c i. set_loop fuel c m.entries key none i) size start

  pub find_as_loop :
      find_loop fuel m.capacity m.entries key (home hash m.capacity key)
      ≡ find_loop fuel (2 ^ k) m.entries key (place (2 ^ k) (hash key) 0)
  find_as_loop = ap₂ (λ c i. find_loop fuel c m.entries key i) size start

-- The answer of a lookup is what the map holds.
abbrev pub Answers {ℓ} : {V : Type ℓ} → ObjMap V → ℕ → Option V → Type ℓ
Answers {V} m key o = (v : V) → (o ≡ some v) ↔ Held m.entries key v

module _ {ℓ} {V : Type ℓ} (hash : ℕ → ℕ) (m : ObjMap V) (valid : IsMap hash m) (key fuel : ℕ)
    (enough : m.capacity ≤ fuel) where
  held_only : (i : ℕ) (u : V) → slot m.entries i ≡ live key u → Answers m key (some u)
  held_only i u e v = (λ p. (i, e ∙ ap (live key) (some-injective _ _ p)), λ (j, q). same j q)
    where
      same : (j : ℕ) → slot m.entries j ≡ live key v → some u ≡ some v
      same j q = ground (arith, e, q, valid.distinct i j key u v e q)

  none_held : ((i : ℕ) (v : V) → slot m.entries i ≢ live key v) → Answers m key none
  none_held absent v = (λ p. cc, λ (i, e). absurd (absent i v e))

  get_shaped :
      IsShaped hash m
      → Ends m
      → ((v : V) × Held m.entries key v) ⊎ ((i : ℕ) (v : V) → slot m.entries i ≢ live key v)
      → (o : Option V) × (obj_map_get hash fuel m key ≡ some o) × Answers m key o
  get_shaped (inl (z, nil)) ends _ =
      (none, get_fresh z, none_held (λ i v e. cc (ap (λ es. slot es i) nil)))
    where
      get_fresh : m.capacity ≡ 0 → obj_map_get hash fuel m key ≡ some none
      get_fresh z = unfold obj_map_get in ground arith
  get_shaped (inr (k, low, high, size, t)) ends (inl (u, (i, e))) = (
    some u,
    get_as_loop hash m k size low key fuel
        ∙ get_held hash k m.entries t key fuel (omega (arith, size)) i u e,
    held_only i u e,
  )
  get_shaped (inr (k, low, high, size, t)) (inl z) (inr absent) =
      absurd (omega (arith, size, two_pow_le 3 k low))
  get_shaped (inr (k, low, high, size, t)) (inr (i, lt, e)) (inr absent) = (
    none,
    get_as_loop hash m k size low key fuel
        ∙ get_absent hash k m.entries t key fuel (omega (arith, size)) absent i (rw t.size at lt) e,
    none_held absent,
  )

  -- A lookup in a valid map that is fresh or has an empty slot ends within `capacity` rounds, and
  -- returns a value exactly if the map holds it for the key.
  pub obj_map_get-Answers :
      Ends m → (o : Option V) × (obj_map_get hash fuel m key ≡ some o) × Answers m key o
  obj_map_get-Answers ends = get_shaped valid.shape ends (Held-cases m.entries key)
