-- ===== src/Prelude/Bits.antt =====
-- A mask of `k` low bits is the remainder by `2 ^ k`, which is how the tables find a slot.
use Prim.Native.Nat.{
  ℕ, zero, suc, ◌+◌, ◌-◌, ◌*◌, ◌/◌, ◌%◌, ◌^◌, ◌≤◌, ◌<◌, min, bit_and, digits, bit_and-bitwise,
}
use mathlib.Core.Path.{◌≡◌, sym, ap, ◌∙◌}
use native.Mathlib.Omega.{arith}
use native.Mathlib.Nat.{
  pow-suc, one-le-pow, div-add-mod, mul-add-mod_self_left, mod-eq_of_lt, mod-lt,
}

-- the masked number, written with a count of digits that is enough
abbrev masked : ℕ → ℕ → ℕ → ℕ
masked count a k = digits (λ _. zero) min count a (2 ^ k - 1)

pow_pos : (k : ℕ) → 0 < 2 ^ k
pow_pos k = omega (arith, one-le-pow k 2)

-- the remainder by twice a number, from the remainder of the half
mod-double : (m a : ℕ) → 0 < m → a % (m * 2) ≡ a / 2 % m * 2 + a % 2
mod-double m a pos =
    let parts : a ≡ m * 2 * (a / 2 / m) + (a / 2 % m * 2 + a % 2) =
      omega (arith, ap (λ (half : ℕ). half * 2) (div-add-mod (a / 2) m)) in
    ap (λ (x : ℕ). x % (m * 2)) parts
    ∙ mul-add-mod_self_left (m * 2) (a / 2 / m) (a / 2 % m * 2 + a % 2)
    ∙ mod-eq_of_lt (omega (arith, mod-lt (a / 2) pos))

half_mask : (k : ℕ) → (2 ^ suc k - 1) / 2 ≡ 2 ^ k - 1
half_mask k = omega (arith, pow-suc 2 k, pow_pos k)

low_mask : (k : ℕ) → (2 ^ suc k - 1) % 2 ≡ 1
low_mask k = omega (arith, pow-suc 2 k, pow_pos k)

masked-mod : (count a k : ℕ) → a ≤ count → masked count a k ≡ a % 2 ^ k
masked-mod zero zero k le = sym (mod-eq_of_lt (pow_pos k))
masked-mod zero (suc a) k le = absurd (omega arith)
masked-mod (suc count) zero k le = sym (mod-eq_of_lt (pow_pos k))
masked-mod (suc count) (suc a) zero le = omega (arith, masked-mod count (suc a / 2) 0 (omega arith))
masked-mod (suc count) (suc a) (suc k) le =
    rw (half_mask k, low_mask k, masked-mod count (suc a / 2) k (omega arith), pow-suc 2 k)
      (omega (arith, mod-double (2 ^ k) (suc a) (pow_pos k)))

pub bit_and_mask : (k a : ℕ) → bit_and a (2 ^ k - 1) ≡ a % 2 ^ k
bit_and_mask k a = bit_and-bitwise a (2 ^ k - 1) ∙ masked-mod a a k (omega arith)
