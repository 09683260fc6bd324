-- ===== src/ObjMap/Rehash.antt =====
-- The loop of `map_grow` (src/object.c) moves every entry of the old table into the new one.
use vek.Prelude.{
  ℕ, zero, suc, ◌+◌, ◌^◌, ◌<◌, ◌≡◌, ◌≢◌, ◌⊎◌, inl, inr, refl, sym, ap, ◌∙◌, some, List, [], ◌∷◌,
  arith, ◌==◌, Bool-cases,
}
use vek.ObjMap.{Slot, empty, tombstone, live, slot, rehash_entry, rehash}
use vek.ObjMap.Table.{
  IsDistinct, IsTable, slot-set, slot-set_self, count_live, is_live, count_live-set,
}
use vek.ObjMap.Grow.{Held, HasNoTombstone, IsPlaced, rehash_entry-IsPlaced}

module _ {ℓ} {V : Type ℓ} (hash : ℕ → ℕ) (k : ℕ) (entries : List (Slot V)) (key : ℕ) (v : V)
    (entries' : List (Slot V)) (p : IsPlaced hash k entries key v entries') where
  placed_count : count_live entries' ≡ suc (count_live entries)
  placed_count = omega (
    arith,
    ap count_live p.same,
    ap is_live p.vacant,
    count_live-set entries p.index (live key v) p.lt,
  )

  placed_cases :
      (s : Slot V) (i : ℕ)
      → s ≢ empty
      → slot entries' i ≡ s
      → (s ≡ live key v) ⊎ (slot entries i ≡ s)
  placed_cases s i n e = elim (Bool-cases (p.index == i)) [
    | inl same ↦ inl (ground (arith, p.same, slot-set entries p.index i (live key v) p.lt))
    | inr other ↦ inr (ground (arith, p.same, slot-set entries p.index i (live key v) p.lt))
  ]

  placed_kept : (s : Slot V) (i : ℕ) → s ≢ empty → slot entries i ≡ s → slot entries' i ≡ s
  placed_kept s i n e =
      ground (arith, p.same, p.vacant, slot-set entries p.index i (live key v) p.lt)

  placed_clean : HasNoTombstone entries → HasNoTombstone entries'
  placed_clean c i e = elim (placed_cases tombstone i (λ x. cc) e) [
    | inl x ↦ cc x
    | inr before ↦ c i before
  ]

  placed_self : slot entries' p.index ≡ live key v
  placed_self = ap (λ es. slot es p.index) p.same ∙ slot-set_self entries p.index (live key v) p.lt

-- The new table holds what it held before and what the old entries hold.
pub record IsRehashed {ℓ} {V : Type ℓ} (hash : ℕ → ℕ) (k : ℕ) (old entries entries' : List (Slot V))
    : Type ℓ where
  pub table : IsTable hash k entries'
  pub clean : HasNoTombstone entries'
  pub count : count_live entries' ≡ count_live entries + count_live old
  pub only : (key : ℕ) (v : V) → Held entries' key v → Held entries key v ⊎ Held old key v
  pub kept : (key : ℕ) (v : V) → Held entries key v → Held entries' key v
  pub moved : (key : ℕ) (v : V) → Held old key v → Held entries' key v

IsDistinct-tail {ℓ} :
    {V : Type ℓ} (s : Slot V) (old : List (Slot V)) → IsDistinct (s ∷ old) → IsDistinct old
IsDistinct-tail s old d i j key v w p q = omega (arith, d (suc i) (suc j) key v w p q)

Held-suc {ℓ} :
    {V : Type ℓ} (s : Slot V) (old : List (Slot V)) (key : ℕ) (v : V)
    → Held old key v
    → Held (s ∷ old) key v
Held-suc s old key v (i, e) = (suc i, e)

-- a slot with no key adds nothing
module _ {ℓ} {V : Type ℓ} (hash : ℕ → ℕ) (k : ℕ) (s : Slot V)
    (dead : (key : ℕ) (v : V) → s ≢ live key v) (zero_live : is_live s ≡ 0)
    (old entries entries' : List (Slot V)) (r : IsRehashed hash k old entries entries') where
  skip_dead : IsRehashed hash k (s ∷ old) entries entries'
  skip_dead = record {
    table = r.table;
    clean = r.clean;
    count = omega (arith, r.count);
    only = λ key v h. weaken key v (r.only key v h);
    kept = r.kept;
    moved = λ key v h. move key v h;
  }
    where
      weaken :
          (key : ℕ) (v : V)
          → Held entries key v ⊎ Held old key v
          → Held entries key v ⊎ Held (s ∷ old) key v
      weaken key v (inl h) = inl h
      weaken key v (inr h) = inr (Held-suc s old key v h)

      move : (key : ℕ) (v : V) → Held (s ∷ old) key v → Held entries' key v
      move key v (zero, e) = absurd (dead key v e)
      move key v (suc i, e) = r.moved key v (i, e)

module _ {ℓ} {V : Type ℓ} (hash : ℕ → ℕ) (k key : ℕ) (v : V)
    (old entries placed entries' : List (Slot V)) (p : IsPlaced hash k entries key v placed)
    (r : IsRehashed hash k old placed entries') where
  add_live : IsRehashed hash k (live key v ∷ old) entries entries'
  add_live = record {
    table = r.table;
    clean = r.clean;
    count = omega (arith, r.count, placed_count hash k entries key v placed p);
    only = λ j w h. weaken j w (r.only j w h);
    kept = λ j w (i, e).
        r.kept j w (i, placed_kept hash k entries key v placed p (live j w) i (λ c. cc) e);
    moved = move;
  }
    where
      weaken :
          (j : ℕ) (w : V)
          → Held placed j w ⊎ Held old j w
          → Held entries j w ⊎ Held (live key v ∷ old) j w
      weaken j w (inr h) = inr (Held-suc (live key v) old j w h)
      weaken j w (inl (i, e)) =
          elim (placed_cases hash k entries key v placed p (live j w) i (λ c. cc) e) [
            | inl same ↦ inr (0, sym same)
            | inr before ↦ inl (i, before)
          ]

      move : (j : ℕ) (w : V) → Held (live key v ∷ old) j w → Held entries' j w
      move j w (zero, e) = r.kept j w (p.index, placed_self hash k entries key v placed p ∙ e)
      move j w (suc i, e) = r.moved j w (i, e)

-- No key of the old entries stands in the table yet.
abbrev pub IsFresh {ℓ} : {V : Type ℓ} → List (Slot V) → List (Slot V) → Type ℓ
IsFresh {V} old entries =
    (i j key : ℕ) (v w : V) → slot old i ≡ live key v → slot entries j ≢ live key w

module _ {ℓ} {V : Type ℓ} (hash : ℕ → ℕ) (k : ℕ) where
  abbrev pub Rehashes : List (Slot V) → List (Slot V) → Type ℓ
  Rehashes old entries =
      (entries' : List (Slot V)) × (rehash hash (2 ^ k) old entries ≡ some entries')
      × IsRehashed hash k old entries entries'

  IsFresh-after :
      (key : ℕ) (v : V) (old entries placed : List (Slot V))
      → IsPlaced hash k entries key v placed
      → IsDistinct (live key v ∷ old)
      → IsFresh (live key v ∷ old) entries
      → IsFresh old placed
  IsFresh-after key v old entries placed p d f i j j' w w' e e' =
      elim (placed_cases hash k entries key v placed p (live j' w') j (λ c. cc) e') [
        | inl same ↦ absurd (omega (arith, d zero (suc i) j' w' w (sym same) e))
        | inr before ↦ f (suc i) j j' w w' e before
      ]

  -- With room for all of them, the loop moves every entry.
  pub rehash_total :
      (old entries : List (Slot V))
      → IsTable hash k entries
      → HasNoTombstone entries
      → IsDistinct old
      → IsFresh old entries
      → count_live entries + count_live old < 2 ^ k
      → Rehashes old entries
  unfolding rehash rehash_entry
  rehash_total [] entries t c d f room = (
    entries,
    refl,
    record {
      table = t;
      clean = c;
      count = omega arith;
      only = λ key v h. inl h;
      kept = λ key v h. h;
      moved = λ key v (i, e). absurd (nothing i key v e);
    },
  )
    where
      nothing : (i key : ℕ) (v : V) → slot [] i ≢ live key v
      nothing i key v e = cc
  rehash_total (empty ∷ old) entries t c d f room =
      let (entries', e, r) =
        rehash_total old entries t c (IsDistinct-tail empty old d) (λ i. f (suc i)) (omega arith) in
      (entries', e, skip_dead hash k empty (λ key v x. cc) refl old entries entries' r)
  rehash_total (tombstone ∷ old) entries t c d f room =
      let (entries', e, r) =
        rehash_total old entries t c (IsDistinct-tail tombstone old d) (λ i. f (suc i))
          (omega arith) in
      (entries', e, skip_dead hash k tombstone (λ key v x. cc) refl old entries entries' r)
  rehash_total (live key v ∷ old) entries t c d f room =
      let (placed, found, p) =
        rehash_entry-IsPlaced hash k entries t c (omega arith) key v
          (λ j w. f zero j key v w refl) in
      let (entries', e, r) =
        rehash_total old placed p.table (placed_clean hash k entries key v placed p c)
          (IsDistinct-tail (live key v) old d) (IsFresh-after key v old entries placed p d f)
          (omega (arith, placed_count hash k entries key v placed p)) in
      (entries', ground (arith, found, e), add_live hash k key v old entries placed entries' p r)
