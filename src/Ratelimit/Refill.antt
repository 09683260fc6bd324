-- ===== src/Ratelimit/Refill.antt =====
-- The refill of a bucket in src/stdlib_ratelimit.c, measured by what the bucket may give until a time.
use mathlib.Core.Option.{some-injective}
use vek.Prelude.{
  false, ap, ℕ, ◌+◌, ◌-◌, ◌*◌, ◌^◌, ◌≤◌, ◌<◌, ◌≡◌, refl, ◌∙◌, inl, inr, subst, subst₂, true,
  Bool-cases, Option, none, some, ltb, ltb→lt, lt→ltb, if◌then◌else◌, arith,
}
use vek.Ratelimit.{Bucket, refilled}

-- what the bucket may still give between two times, of which it has seen the first or not
abbrev pub potential : ℕ → ℕ → ℕ → ℕ → Option Bucket → ℕ
potential max_tokens rate from until none = max_tokens + rate * (until - from)
potential max_tokens rate from until (some b) =
    if ltb b.last_refill from
    then max_tokens + rate * (until - from)
    else b.tokens + rate * (until - b.last_refill)

mul_add_comm : (d e rate : ℕ) → d * rate + rate * e ≡ rate * (d + e)
mul_add_comm d e rate = ground arith

span_mul : (a b c rate : ℕ) → a ≤ b → b ≤ c → (b - a) * rate + rate * (c - b) ≡ rate * (c - a)
span_mul a b c rate h h' =
    let whole : (b - a) + (c - b) ≡ c - a = omega arith in
    mul_add_comm (b - a) (c - b) rate ∙ ap (λ d. rate * d) whole

capped : (m t n : ℕ) → m ≤ n → (if ltb m t then m else t) ≤ n
capped m t n h = ground arith

clipped : (m t : ℕ) → (if ltb m t then m else t) ≤ t
clipped m t = ground arith

-- a refill gives no more than the time that it uses up
pub refilled-le :
    (max_tokens rate now from until : ℕ) (o : Option Bucket) (b : Bucket)
    → refilled max_tokens rate now o ≡ some b
    → from ≤ now
    → now ≤ until
    → (b.tokens + rate * (until - b.last_refill) ≤ potential max_tokens rate from until o)
      × (from ≤ b.last_refill)
unfolding refilled
refilled-le max_tokens rate now from until none b e h h' =
    subst
      (λ c.
        (c.tokens + rate * (until - c.last_refill) ≤ max_tokens + rate * (until - from))
        × (from ≤ c.last_refill))
      (some-injective _ _ e) (omega (arith, span_mul from now until rate h h'), h)
refilled-le max_tokens rate now from until (some old) b e h h' =
    let grown = old.tokens + (now - old.last_refill) * rate in
    let goal : Bucket → Type 0 = λ c.
      (c.tokens + rate * (until - c.last_refill) ≤ potential max_tokens rate from until (some old))
      × (from ≤ c.last_refill) in
    elim (Bool-cases (ltb old.last_refill now)) [
      | inr fresh ↦
          let seen : ltb old.last_refill from ≡ false = ground arith in
          subst goal (some-injective _ _ (rw fresh at e)) (rw seen (omega arith), ground arith)
      | inl later ↦ elim (Bool-cases (ltb grown (2 ^ 63))) [
        | inr over ↦ cc (rw (later, over) at e)
        | inl fits ↦ subst goal (some-injective _ _ (rw (later, fits) at e)) (
          elim (Bool-cases (ltb old.last_refill from)) [
            | inl before ↦ rw before (
                omega (
                  arith,
                  capped max_tokens grown max_tokens (omega arith),
                  span_mul from now until rate h h',
                ))
            | inr seen ↦ rw seen (
                omega (
                  arith,
                  clipped max_tokens grown,
                  span_mul old.last_refill now until rate (omega (arith, ltb→lt _ _ later)) h',
                ))
          ],
          h,
        )
      ]
    ]

-- the tokens of a bucket that may be there
abbrev pub held : Option Bucket → ℕ
held none = 0
held (some b) = b.tokens

mul_le_add : (a x c y : ℕ) → a * c ≤ (a + x) * (c + y)
mul_le_add a x c y = ground arith

mul_le : (a b c d : ℕ) → a ≤ b → c ≤ d → a * c ≤ b * d
mul_le a b c d h h' =
    let whole : a + (b - a) ≡ b = omega arith in
    let whole' : c + (d - c) ≡ d = omega arith in
    subst₂ (λ x y. a * c ≤ x * y) whole whole' (mul_le_add a (b - a) c (d - c))

-- no overflow, and no more tokens than the largest limit
pub refilled-fits :
    (max_tokens rate now m r until : ℕ) (o : Option Bucket)
    → max_tokens ≤ m
    → rate ≤ r
    → now ≤ until
    → held o ≤ m
    → m + until * r < 2 ^ 63
    → (b : Bucket) × (refilled max_tokens rate now o ≡ some b) × (b.tokens ≤ m)
unfolding refilled
refilled-fits max_tokens rate now m r until none h h1 h2 h3 room = (_, refl, h)
refilled-fits max_tokens rate now m r until (some b) h h1 h2 h3 room =
    let grown = mul_le (now - b.last_refill) until rate r (omega arith) h1 in
    elim (Bool-cases (ltb b.last_refill now)) [
      | inr fresh ↦ rw fresh (b, refl, h3)
      | inl later ↦
          let fits : ltb (b.tokens + (now - b.last_refill) * rate) (2 ^ 63) ≡ true =
            lt→ltb _ _ (omega arith) in
          rw (later, fits) (_, refl, capped max_tokens _ m h)
    ]

pub potential-le :
    (max_tokens rate from until : ℕ) (o : Option Bucket)
    → held o ≤ max_tokens
    → potential max_tokens rate from until o ≤ max_tokens + rate * (until - from)
potential-le max_tokens rate from until none h = omega arith
potential-le max_tokens rate from until (some b) h = elim (Bool-cases (ltb b.last_refill from)) [
  | inl before ↦ rw before (omega arith)
  | inr seen ↦
      let later : from ≤ b.last_refill = ground arith in
      rw seen (
        omega (
          arith,
          h,
          mul_le rate rate (until - b.last_refill) (until - from) (omega arith) (omega arith),
        ))
]
