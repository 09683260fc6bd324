-- ===== src/ObjMap/Loops.antt =====
-- The probing loops of src/object.c: a loop goes on past tombstones and other keys, ends at the key or
-- at an empty slot, and never ends where there is neither.
use vek.Prelude.{
  ℕ, zero, suc, ◌+◌, ◌-◌, ◌^◌, ◌≤◌, ◌<◌, ◌≡◌, ◌≢◌, refl, ap, ◌∙◌, ap₂, none, some, List, arith,
}
use vek.ObjMap.{Slot, empty, tombstone, live, slot, next, get_loop, find_loop, free_loop}
use vek.ObjMap.Probe.{place, next-place}

-- A probe for `key` goes on past the slot.
abbrev pub IsPassed {ℓ} : {V : Type ℓ} → ℕ → Slot V → Type 0
IsPassed key empty = ⊥
IsPassed key tombstone = Unit
IsPassed key (live k v) = k ≢ key

abbrev pub IsLive {ℓ} : {V : Type ℓ} → Slot V → Type 0
IsLive (live k v) = Unit
IsLive _ = ⊥

abbrev pub IsFull {ℓ} : {V : Type ℓ} → Slot V → Type 0
IsFull empty = ⊥
IsFull _ = Unit

module _ {ℓ} {V : Type ℓ} (capacity : ℕ) (entries : List (Slot V)) (key : ℕ) where
  get_loop-passed :
      (fuel index : ℕ) (s : Slot V)
      → slot entries index ≡ s
      → IsPassed key s
      → get_loop (suc fuel) capacity entries key index
        ≡ get_loop fuel capacity entries key (next capacity index)
  unfolding get_loop
  get_loop-passed fuel index empty e p = elim p [ ]
  get_loop-passed fuel index tombstone e p = ground arith
  get_loop-passed fuel index (live k v) e p = ground arith

  find_loop-passed :
      (fuel index : ℕ) (s : Slot V)
      → slot entries index ≡ s
      → IsPassed key s
      → find_loop (suc fuel) capacity entries key index
        ≡ find_loop fuel capacity entries key (next capacity index)
  unfolding find_loop
  find_loop-passed fuel index empty e p = elim p [ ]
  find_loop-passed fuel index tombstone e p = ground arith
  find_loop-passed fuel index (live k v) e p = ground arith

  free_loop-passed :
      (fuel index : ℕ) (s : Slot V)
      → slot entries index ≡ s
      → IsLive s
      → free_loop (suc fuel) capacity entries index
        ≡ free_loop fuel capacity entries (next capacity index)
  unfolding free_loop
  free_loop-passed fuel index (live k v) e p = ground arith
  free_loop-passed fuel index _ e p = elim p [ ]

-- the slot `d` places after `h`
abbrev pub met {ℓ} : {V : Type ℓ} → ℕ → List (Slot V) → ℕ → ℕ → Slot V
met k entries h d = slot entries (place (2 ^ k) h d)

-- A loop over indices that goes on past each slot with `P`.
module _ {ℓ κ} {V : Type ℓ} {X : Type κ} (k : ℕ) (entries : List (Slot V)) (h : ℕ)
    (P : Slot V → Type 0) (loop : ℕ → ℕ → X)
    (passes : (fuel index : ℕ)
      → P (slot entries index)
      → loop (suc fuel) index ≡ loop fuel (next (2 ^ k) index)) where
  loop_skips :
      (n d t fuel : ℕ)
      → d + n ≡ t
      → ((e : ℕ) → d ≤ e → e < t → P (met k entries h e))
      → loop (n + fuel) (place (2 ^ k) h d) ≡ loop fuel (place (2 ^ k) h t)
  loop_skips zero d t fuel e s = ap₂ (λ a b. loop a (place (2 ^ k) h b)) (omega arith) (omega arith)
  loop_skips (suc n) d t fuel e s =
      ap (λ a. loop a (place (2 ^ k) h d)) (omega arith)
      ∙ passes (n + fuel) (place (2 ^ k) h d) (s d (omega arith) (omega arith))
      ∙ ap (loop (n + fuel)) (next-place k h d)
      ∙ loop_skips n (d + 1) t fuel (omega arith) (λ i a b. s i (omega arith) b)

  -- with enough fuel the loop reaches the slot `t`, if it goes on past those before
  loop_reaches :
      (t fuel : ℕ)
      → t < fuel
      → ((e : ℕ) → e < t → P (met k entries h e))
      → loop fuel (place (2 ^ k) h 0) ≡ loop (suc (fuel - suc t)) (place (2 ^ k) h t)
  loop_reaches t fuel lt s =
      ap (λ a. loop a (place (2 ^ k) h 0)) (omega arith)
      ∙ loop_skips t 0 t (suc (fuel - suc t)) (omega arith) (λ e _ b. s e b)

  -- where every slot has `P` the loop uses up all its fuel
  loop_spins :
      (fuel d : ℕ)
      → ((e : ℕ) → P (met k entries h e))
      → loop fuel (place (2 ^ k) h d) ≡ loop 0 (place (2 ^ k) h (d + fuel))
  loop_spins fuel d s =
      ap (λ a. loop a (place (2 ^ k) h d)) (omega arith)
      ∙ loop_skips fuel d (d + fuel) 0 refl (λ e _ _. s e)

module _ {ℓ} {V : Type ℓ} (k : ℕ) (entries : List (Slot V)) (key h : ℕ) where
  -- the slots from the home of the key up to the one `t` places after it are passed
  abbrev pub Skips : ℕ → Type 0
  Skips t = (e : ℕ) → e < t → IsPassed key (met k entries h e)

  get_reaches :
      (t fuel : ℕ)
      → t < fuel
      → Skips t
      → get_loop fuel (2 ^ k) entries key (place (2 ^ k) h 0)
        ≡ get_loop (suc (fuel - suc t)) (2 ^ k) entries key (place (2 ^ k) h t)
  get_reaches t fuel lt s =
      loop_reaches k entries h (IsPassed key) (λ f i. get_loop f (2 ^ k) entries key i)
        (λ f i p. get_loop-passed (2 ^ k) entries key f i _ refl p) t fuel lt s

  find_reaches :
      (t fuel : ℕ)
      → t < fuel
      → Skips t
      → find_loop fuel (2 ^ k) entries key (place (2 ^ k) h 0)
        ≡ find_loop (suc (fuel - suc t)) (2 ^ k) entries key (place (2 ^ k) h t)
  find_reaches t fuel lt s =
      loop_reaches k entries h (IsPassed key) (λ f i. find_loop f (2 ^ k) entries key i)
        (λ f i p. find_loop-passed (2 ^ k) entries key f i _ refl p) t fuel lt s

  module _ (t fuel : ℕ) (lt : t < fuel) (s : Skips t) where
    pub get_loop-live :
        (v : V)
        → met k entries h t ≡ live key v
        → get_loop fuel (2 ^ k) entries key (place (2 ^ k) h 0) ≡ some (some v)
    unfolding get_loop
    get_loop-live v e = get_reaches t fuel lt s ∙ ground arith

    pub get_loop-empty :
        met k entries h t ≡ empty
        → get_loop fuel (2 ^ k) entries key (place (2 ^ k) h 0) ≡ some none
    unfolding get_loop
    get_loop-empty e = get_reaches t fuel lt s ∙ ground arith

    pub find_loop-live :
        (v : V)
        → met k entries h t ≡ live key v
        → find_loop fuel (2 ^ k) entries key (place (2 ^ k) h 0) ≡ some (some (place (2 ^ k) h t))
    unfolding find_loop
    find_loop-live v e = find_reaches t fuel lt s ∙ ground arith

    pub find_loop-empty :
        met k entries h t ≡ empty
        → find_loop fuel (2 ^ k) entries key (place (2 ^ k) h 0) ≡ some none
    unfolding find_loop
    find_loop-empty e = find_reaches t fuel lt s ∙ ground arith

  pub get_loop_spins :
      (fuel : ℕ)
      → ((e : ℕ) → IsPassed key (met k entries h e))
      → get_loop fuel (2 ^ k) entries key (place (2 ^ k) h 0) ≡ none
  unfolding get_loop
  get_loop_spins fuel s =
      loop_spins k entries h (IsPassed key) (λ f i. get_loop f (2 ^ k) entries key i)
        (λ f i p. get_loop-passed (2 ^ k) entries key f i _ refl p) fuel 0 s

  pub find_loop_spins :
      (fuel : ℕ)
      → ((e : ℕ) → IsPassed key (met k entries h e))
      → find_loop fuel (2 ^ k) entries key (place (2 ^ k) h 0) ≡ none
  unfolding find_loop
  find_loop_spins fuel s =
      loop_spins k entries h (IsPassed key) (λ f i. find_loop f (2 ^ k) entries key i)
        (λ f i p. find_loop-passed (2 ^ k) entries key f i _ refl p) fuel 0 s

module _ {ℓ} {V : Type ℓ} (k : ℕ) (entries : List (Slot V)) (h : ℕ) where
  -- a slot that a new key may take: vacant, with no empty slot before it in the probe
  pub record IsRoom (index : ℕ) : Type 0 where
    pub d : ℕ
    pub near : d < 2 ^ k
    pub at : place (2 ^ k) h d ≡ index
    pub vacant : ¬ (IsLive (slot entries index))
    pub full : (e : ℕ) → e < d → IsFull (met k entries h e)

  pub free_loop-empty :
      (t fuel : ℕ)
      → t < fuel
      → ((e : ℕ) → e < t → IsLive (met k entries h e))
      → met k entries h t ≡ empty
      → free_loop fuel (2 ^ k) entries (place (2 ^ k) h 0) ≡ some (place (2 ^ k) h t)
  unfolding free_loop
  free_loop-empty t fuel lt s e =
      loop_reaches k entries h IsLive (λ f i. free_loop f (2 ^ k) entries i)
        (λ f i p. free_loop-passed (2 ^ k) entries 0 f i _ refl p) t fuel lt s
      ∙ ground arith
