-- ===== src/Http/Content.antt =====
-- The content length of src/http_parser.c against the number that its digits write.
use vek.Prelude.{
  ℕ, ◌+◌, ◌-◌, ◌*◌, ◌%◌, Bool, Bool-cases, ◌&&◌, ◌≡◌, ◌∙◌, refl, ap, inl, inr, [], ◌∷◌, Bytes, leb,
  if◌then◌else◌, arith,
}
use vek.Http.{size_mod}
use vek.Http.Request.{content_digits}

abbrev is_decimal : ℕ → Bool
is_decimal c = leb b'0' c && leb c b'9'

-- the number that the digits of a text write, behind the digits of `n`
abbrev pub decimal : Bytes → ℕ → ℕ
decimal [] n = n
decimal (c ∷ cs) n =
    if leb b'0' c && leb c b'9' then decimal cs (n * 10 + (c - b'0')) else decimal cs n

one_digit : (n d : ℕ) → (n % size_mod * 10 + d) % size_mod ≡ (n * 10 + d) % size_mod
one_digit n d = omega arith

content_digits-mod : (s : Bytes) (n : ℕ) → content_digits s (n % size_mod) ≡ decimal s n % size_mod
unfolding content_digits
content_digits-mod [] n = refl
content_digits-mod (c ∷ cs) n = elim (Bool-cases (is_decimal c)) [
  | inl e ↦ rw e (
      ap (content_digits cs) (one_digit n (c - b'0')) ∙ content_digits-mod cs (n * 10 + (c - b'0')))
  | inr e ↦ rw e (content_digits-mod cs n)
]

-- The content length is the number that the digits of the value write, all other bytes passed over,
-- modulo 2 ^ 64.
pub content_digits-decimal : (s : Bytes) → content_digits s 0 ≡ decimal s 0 % size_mod
content_digits-decimal s = content_digits-mod s 0
