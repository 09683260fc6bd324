-- ===== src/Lexer/Text.antt =====
-- Positions in the source of src/lexer.c, as a reader of its tokens sees them.
use vek.Prelude.{
  ℕ, suc, ◌+◌, ◌-◌, ◌≤◌, ◌≡◌, refl, ap, [], ◌∷◌, ◌++◌, Bytes, length, take, arith, ◌==◌,
  if◌then◌else◌,
}

-- `p` is reached from `s` by skipping bytes.
pub data Reaches (p : Bytes) : Bytes → Type 0 where
  here : Reaches p p
  skip : {c : ℕ} {s : Bytes} → Reaches p s → Reaches p (c ∷ s)

pub Reaches-trans : {p q s : Bytes} → Reaches p q → Reaches q s → Reaches p s
Reaches-trans h here = h
Reaches-trans h (skip k) = skip (Reaches-trans h k)

pub length-Reaches : {p s : Bytes} → Reaches p s → length p ≤ length s
length-Reaches here = omega arith
length-Reaches (skip k) = omega (arith, length-Reaches k)

take_none : (n : ℕ) → n - n ≡ 0
take_none n = omega arith

suc-sub-of-le : (n m : ℕ) → m ≤ n → suc n - m ≡ suc (n - m)
suc-sub-of-le n m h = omega arith

-- What lies between the two positions, followed by the rest, is the text.
pub take-Reaches : {p s : Bytes} → Reaches p s → take (length s - length p) s ++ p ≡ s
take-Reaches {p} here = rw (take_none (length p)) refl
take-Reaches {p} (skip {c} {s} k) =
    rw (suc-sub-of-le (length s) (length p) (length-Reaches k)) (ap (◌∷◌ c) (take-Reaches k))

-- the newlines from a position to the end of the source
abbrev pub newlines : Bytes → ℕ
newlines [] = 0
newlines (c ∷ cs) = (if c == b'\n' then 1 else 0) + newlines cs
