-- ===== src/ObjMap/Probe.antt =====
-- The probe sequence of src/object.c: from the home of a key, one slot after another, round the table.
use native.Mathlib.Nat.{
  mod-lt, mod-add-mod, mod-eq_of_lt, add-mod-mod, add-mul-mod_self_left, div-add-mod, one-le-pow,
}
use vek.Prelude.{ℕ, ◌+◌, ◌-◌, ◌*◌, ◌/◌, ◌%◌, ◌^◌, ◌<◌, ◌≡◌, ap, ◌∙◌, arith}
use vek.Prelude.Bits.{bit_and_mask}
use vek.ObjMap.{next, home}

-- the slot `d` places after `h`
abbrev pub place : ℕ → ℕ → ℕ → ℕ
place capacity h d = (h + d) % capacity

pub next-place : (k h d : ℕ) → next (2 ^ k) (place (2 ^ k) h d) ≡ place (2 ^ k) h (d + 1)
next-place k h d =
    bit_and_mask k (place (2 ^ k) h d + 1)
    ∙ mod-add-mod (h + d) (2 ^ k) 1
    ∙ ap (λ (t : ℕ). t % 2 ^ k) (omega arith)

pub home-place : (hash : ℕ → ℕ) (k key : ℕ) → home hash (2 ^ k) key ≡ place (2 ^ k) (hash key) 0
home-place hash k key = bit_and_mask k (hash key) ∙ ap (λ (t : ℕ). t % 2 ^ k) (omega arith)

two-pow-pos : (k : ℕ) → 0 < 2 ^ k
two-pow-pos k = one-le-pow k 2 (omega arith)

pub place-lt : (k h d : ℕ) → place (2 ^ k) h d < 2 ^ k
place-lt k h d = mod-lt (h + d) (two-pow-pos k)

-- how far `i` lies behind `h`
unfoldable pub distance : ℕ → ℕ → ℕ → ℕ
distance capacity h i = (i + capacity - h % capacity) % capacity

round_trip : (h i m : ℕ) → 0 < m → h + (i + m - h % m) ≡ i + m * (h / m + 1)
round_trip h i m pos = omega (arith, div-add-mod h m, mod-lt h pos)

pub place-distance : (k h i : ℕ) → i < 2 ^ k → place (2 ^ k) h (distance (2 ^ k) h i) ≡ i
unfolding distance
place-distance k h i lt =
    add-mod-mod h (i + 2 ^ k - h % 2 ^ k) (2 ^ k)
    ∙ ap (λ (t : ℕ). t % 2 ^ k) (round_trip h i (2 ^ k) (two-pow-pos k))
    ∙ add-mul-mod_self_left i (2 ^ k) (h / 2 ^ k + 1)
    ∙ mod-eq_of_lt lt

pub distance-lt : (k h i : ℕ) → distance (2 ^ k) h i < 2 ^ k
unfolding distance
distance-lt k h i = mod-lt (i + 2 ^ k - h % 2 ^ k) (two-pow-pos k)
