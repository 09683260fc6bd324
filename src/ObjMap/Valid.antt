-- ===== src/ObjMap/Valid.antt =====
-- The invariant of a map object of src/object.c, and growth under it.
use vek.Prelude.{
  ℕ, zero, suc, ◌+◌, ◌*◌, ◌^◌, ◌≤◌, ◌<◌, ◌≡◌, ◌≢◌, ◌⊎◌, inl, inr, refl, sym, ap, ◌∙◌, some, List,
  [], ◌∷◌, arith, length, replicate, length-replicate,
}
use native.Mathlib.Decide.{ℕ_discrete, dec_lt}
use native.Mathlib.Nat.{pow-le-pow_right, pow-suc}
use vek.ObjMap.{Slot, empty, tombstone, live, slot, ObjMap, grown_capacity, map_grow}
use vek.ObjMap.Table.{IsDistinct, IsTable, count_live}
use vek.ObjMap.Grow.{
  Held, HasEmpty, HasNoTombstone, has_empty, slot-replicate, count_live-replicate, free,
}
use vek.ObjMap.Rehash.{rehash_total}

-- A map is fresh, or a table of 8 to 2 ^ 30 slots; `length` counts its keys.
abbrev pub IsShaped {ℓ} : {V : Type ℓ} → (ℕ → ℕ) → ObjMap V → Type ℓ
IsShaped hash m =
    ((m.capacity ≡ 0) × (m.entries ≡ []))
    ⊎ ((k : ℕ) × (3 ≤ k) × (k ≤ 30) × (m.capacity ≡ 2 ^ k) × IsTable hash k m.entries)

pub record IsMap {ℓ} {V : Type ℓ} (hash : ℕ → ℕ) (m : ObjMap V) : Type ℓ where
  pub distinct : IsDistinct m.entries
  pub counted : m.length ≡ count_live m.entries
  pub shape : IsShaped hash m

module _ {ℓ} {V : Type ℓ} where
  pub count_live-le : (entries : List (Slot V)) → count_live entries ≤ length entries
  count_live-le [] = omega arith
  count_live-le (empty ∷ xs) = omega (arith, count_live-le xs)
  count_live-le (tombstone ∷ xs) = omega (arith, count_live-le xs)
  count_live-le (live k v ∷ xs) = omega (arith, count_live-le xs)

  -- whether a key stands in the table
  pub Held-cases :
      (entries : List (Slot V)) (key : ℕ)
      → ((v : V) × Held entries key v) ⊎ ((i : ℕ) (v : V) → slot entries i ≢ live key v)
  Held-cases [] key = inr (λ i v e. cc)
  Held-cases (s ∷ entries) key = or_tail (slot_held s) (Held-cases entries key)
    where
      slot_held : (s : Slot V) → ((v : V) × (s ≡ live key v)) ⊎ ((v : V) → s ≢ live key v)
      slot_held empty = inr (λ v e. cc)
      slot_held tombstone = inr (λ v e. cc)
      slot_held (live j w) = elim (ℕ_discrete j key) [
        | yes e ↦ inl (w, ap (λ x. live x w) e)
        | no n ↦ inr (λ v e. n (cc e))
      ]

      or_tail :
          ((v : V) × (s ≡ live key v)) ⊎ ((v : V) → s ≢ live key v)
          → ((v : V) × Held entries key v) ⊎ ((i : ℕ) (v : V) → slot entries i ≢ live key v)
          → ((v : V) × Held (s ∷ entries) key v)
            ⊎ ((i : ℕ) (v : V) → slot (s ∷ entries) i ≢ live key v)
      or_tail (inl (v, e)) _ = inl (v, (0, e))
      or_tail (inr n) (inl (v, (i, e))) = inl (v, (suc i, e))
      or_tail (inr n) (inr n') = inr (λ i v e. none_at i v n n' e)
        where
          none_at :
              (i : ℕ) (v : V)
              → ((v : V) → s ≢ live key v)
              → ((i : ℕ) (v : V) → slot entries i ≢ live key v)
              → slot (s ∷ entries) i ≢ live key v
          none_at zero v n n' e = n v e
          none_at (suc i) v n n' e = n' i v e

pub two_pow_le : (k n : ℕ) → k ≤ n → 2 ^ k ≤ 2 ^ n
two_pow_le k n le = pow-le-pow_right (omega arith) le

-- doubling, where it does not wrap
grown_double :
    (capacity k : ℕ)
    → 3 ≤ k
    → capacity ≡ 2 ^ k
    → capacity < 2 ^ 30
    → grown_capacity capacity ≡ 2 ^ suc k
grown_double capacity k low e small = ground (arith, two_pow_le 3 k low, pow-suc 2 k)

exponent-lt : (capacity k : ℕ) → capacity ≡ 2 ^ k → capacity < 2 ^ 30 → suc k ≤ 30
exponent-lt capacity k e small = elim (dec_lt k 30) [
  | yes p ↦ p
  | no n ↦ absurd (omega (arith, two_pow_le 30 k (omega arith)))
]

module _ {ℓ} {V : Type ℓ} (hash : ℕ → ℕ) where
  pub fresh-IsTable : (k : ℕ) → IsTable hash k (replicate (2 ^ k) (free V))
  fresh-IsTable k = record {
    size = length-replicate (2 ^ k) (free V);
    distinct = λ i j key v w p q. absurd (none_live i key v p);
    reached = λ i key v p. absurd (none_live i key v p);
  }
    where
      none_live : (i key : ℕ) (v : V) → slot (replicate (2 ^ k) (free V)) i ≢ live key v
      none_live i key v p = cc (slot-replicate V (2 ^ k) i)

  -- A larger table with the same keys, no tombstone and room.
  pub record IsGrown (m m' : ObjMap V) : Type ℓ where
    pub k : ℕ
    pub low : 3 ≤ k
    pub high : k ≤ 30
    pub capacity : m'.capacity ≡ 2 ^ k
    pub bound : m'.capacity ≤ 2 * m.capacity + 8
    pub table : IsTable hash k m'.entries
    pub clean : HasNoTombstone m'.entries
    pub counted : m'.length ≡ count_live m'.entries
    pub room : HasEmpty m'.entries
    pub kept : (key : ℕ) (v : V) → Held m.entries key v → Held m'.entries key v
    pub only : (key : ℕ) (v : V) → Held m'.entries key v → Held m.entries key v

  -- the move into a table of 2 ^ k slots that is larger than the number of keys
  IsGrown-to :
      (m : ObjMap V) (k : ℕ)
      → IsMap hash m
      → 3 ≤ k
      → k ≤ 30
      → grown_capacity m.capacity ≡ 2 ^ k
      → 2 ^ k ≤ 2 * m.capacity + 8
      → count_live m.entries < 2 ^ k
      → (m' : ObjMap V) × (map_grow hash m ≡ some m') × IsGrown m m'
  unfolding map_grow
  IsGrown-to m k valid low high e bound lt =
      let (entries', found, r) =
        rehash_total hash k m.entries (replicate (2 ^ k) (free V)) (fresh-IsTable k)
          (λ i x. cc (slot-replicate V (2 ^ k) i)) valid.distinct
          (λ i j key v w p q. cc (slot-replicate V (2 ^ k) j))
          (omega (arith, count_live-replicate V (2 ^ k))) in
      let counts : count_live entries' ≡ count_live m.entries =
        omega (arith, r.count, count_live-replicate V (2 ^ k)) in
      (
        record m { capacity = 2 ^ k; entries = entries' },
        rw e (ground (arith, found)),
        record {
          k = k;
          low = low;
          high = high;
          capacity = refl;
          bound = bound;
          table = r.table;
          clean = r.clean;
          counted = valid.counted ∙ sym counts;
          room = has_empty entries' r.clean (omega (arith, counts, r.table.size));
          kept = r.moved;
          only = λ key v h. from_old key v (r.only key v h);
        },
      )
    where
      from_old :
          (key : ℕ) (v : V)
          → Held (replicate (2 ^ k) (free V)) key v ⊎ Held m.entries key v
          → Held m.entries key v
      from_old key v (inl (i, p)) = cc (slot-replicate V (2 ^ k) i)
      from_old key v (inr h) = h

  grow_shaped :
      (m : ObjMap V)
      → IsMap hash m
      → IsShaped hash m
      → m.capacity < 2 ^ 30
      → (m' : ObjMap V) × (map_grow hash m ≡ some m') × IsGrown m m'
  grow_shaped m valid (inl (zero_cap, nil)) small =
      IsGrown-to m 3 valid (omega arith) (omega arith) (ground (arith, zero_cap)) (omega arith)
        (omega (arith, ap count_live nil))
  grow_shaped m valid (inr (k, low, high, size, t)) small =
      IsGrown-to m (suc k) valid (omega arith) (exponent-lt m.capacity k size small)
        (grown_double m.capacity k low size small) (omega (arith, pow-suc 2 k))
        (omega (arith, count_live-le m.entries, t.size, pow-suc 2 k, two_pow_le 3 k low))

  -- Below 2 ^ 30 slots a map grows to a table with the same keys and room for more.
  pub map_grow-IsGrown :
      (m : ObjMap V)
      → IsMap hash m
      → m.capacity < 2 ^ 30
      → (m' : ObjMap V) × (map_grow hash m ≡ some m') × IsGrown m m'
  map_grow-IsGrown m valid small = grow_shaped m valid valid.shape small
