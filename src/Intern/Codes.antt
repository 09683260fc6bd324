-- ===== src/Intern/Codes.antt =====
-- Byte strings as numbers, so that the table of interned strings of src/object.c can be read as a map
-- whose keys are numbers.
use vek.Prelude.{
  ℕ, zero, suc, ◌+◌, ◌*◌, ◌/◌, ◌%◌, ◌^◌, ◌≤◌, ◌≡◌, refl, sym, ap, ap₂, ◌∙◌, subst, inl, inr,
  Bool-cases, true, [], ◌∷◌, Bytes, bytes_eq, bytes_eq→eq, bytes_eq_self, arith, ◌==◌, ==_iff,
  if◌then◌else◌,
}
use native.Mathlib.Nat.{pow-suc}

abbrev pub code : Bytes → ℕ
code [] = 0
code (b ∷ bs) = 2 ^ b * (2 * code bs + 1)

-- `b` counts the halvings since the last element
unfoldable pub decode : ℕ → ℕ → ℕ → Bytes
decode zero b n = []
decode (suc fuel) b n =
    let halved = decode fuel (b + 1) (n / 2) in
    let rest = decode fuel 0 (n / 2) in
    if n == 0 then [] else (if n % 2 == 0 then halved else b ∷ rest)

decode-odd : (fuel k n : ℕ) → n % 2 ≡ 1 → decode (suc fuel) k n ≡ k ∷ decode fuel 0 (n / 2)
unfolding decode
decode-odd fuel k n e = ground arith

decode-even :
    (fuel k n : ℕ) → n % 2 ≡ 0 → 1 ≤ n → decode (suc fuel) k n ≡ decode fuel (k + 1) (n / 2)
unfolding decode
decode-even fuel k n e h = ground arith

-- a power of two times an odd number
shifted : ℕ → ℕ → ℕ
shifted b c = 2 ^ b * (2 * c + 1)

shifted-suc : (b c : ℕ) → shifted (suc b) c ≡ 2 * shifted b c
unfolding shifted
shifted-suc b c = rw (pow-suc 2 b) (omega arith)

shifted-pos : (b c : ℕ) → 1 ≤ shifted b c
unfolding shifted
shifted-pos zero c = omega arith
shifted-pos (suc b) c = omega (arith, shifted-suc b c, shifted-pos b c)

decode-shifted :
    (b k fuel c : ℕ) (bs : Bytes)
    → ((f : ℕ) → c ≤ f → decode f 0 c ≡ bs)
    → shifted b c ≤ fuel
    → decode fuel k (shifted b c) ≡ (k + b) ∷ bs
unfolding shifted
decode-shifted b k zero c bs ih h = absurd (omega (arith, shifted-pos b c))
decode-shifted zero k (suc fuel) c bs ih h =
    decode-odd fuel k (shifted zero c) (omega arith)
    ∙ ap₂ ◌∷◌ (omega arith)
        (ap (decode fuel 0) {x = shifted zero c / 2} {y = c} (omega arith) ∙ ih fuel (omega arith))
decode-shifted (suc b) k (suc fuel) c bs ih h =
    decode-even fuel k (shifted (suc b) c) (omega (arith, shifted-suc b c)) (shifted-pos (suc b) c)
    ∙ ap (decode fuel (k + 1)) {x = shifted (suc b) c / 2} {y = shifted b c}
        (omega (arith, shifted-suc b c))
    ∙ decode-shifted b (k + 1) fuel c bs ih (omega (arith, shifted-suc b c, shifted-pos b c))
    ∙ ap (λ x. x ∷ bs) (omega arith)

pub decode-code : (bs : Bytes) (fuel : ℕ) → code bs ≤ fuel → decode fuel 0 (code bs) ≡ bs
unfolding shifted decode
decode-code [] zero h = refl
decode-code [] (suc fuel) h = refl
decode-code (b ∷ bs) fuel h =
    decode-shifted b 0 fuel (code bs) bs (decode-code bs) h
    ∙ ap (λ x. x ∷ bs) {x = 0 + b} {y = b} (omega arith)

pub code-injective : (a b : Bytes) → code a ≡ code b → a ≡ b
code-injective a b e =
    sym (decode-code a (code a) (omega arith))
    ∙ ap (λ n. decode n 0 n) e
    ∙ decode-code b (code b) (omega arith)

-- comparing two strings compares their codes
pub bytes_eq-code : (a b : Bytes) → bytes_eq a b ≡ (code a == code b)
bytes_eq-code a b = elim (Bool-cases (bytes_eq a b)) [
  | inl e ↦ e ∙ sym ((==_iff (code a) (code b)).1 (ap code (bytes_eq→eq a b e)))
  | inr e ↦ elim (Bool-cases (code a == code b)) [
    | inl f ↦ cc (
      e,
      subst (λ c. bytes_eq a c ≡ true) (code-injective a b ((==_iff (code a) (code b)).0 f))
          (bytes_eq_self a),
    )
    | inr f ↦ e ∙ sym f
  ]
]
