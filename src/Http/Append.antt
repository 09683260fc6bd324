-- ===== src/Http/Append.antt =====
-- The searches of src/http_parser.c when more bytes arrive behind the buffer.
use vek.Prelude.{
  ℕ, zero, suc, ◌-◌, ◌≤◌, ◌<◌, Bool-cases, ◌&&◌, ◌≡◌, ◌∙◌, refl, sym, ap, inl, inr, none, some, [],
  ◌∷◌, ◌++◌, Bytes, length, length-append, take, drop, get_or, ◌==◌, arith,
}
use mathlib.Core.Option.{some-injective}
use vek.Http.{find_crlf, find_header_end, memchr, between, skip_spaces}
use vek.Http.Rounds.{find_header_end-here, find_header_end-there}

pub take-append : (n : ℕ) (p more : Bytes) → n ≤ length p → take n (p ++ more) ≡ take n p
take-append zero p more h = refl
take-append (suc n) [] more h = absurd (omega arith)
take-append (suc n) (c ∷ cs) more h = ap (◌∷◌ c) (take-append n cs more (omega arith))

pub drop-append : (n : ℕ) (p more : Bytes) → n ≤ length p → drop n (p ++ more) ≡ drop n p ++ more
drop-append zero p more h = refl
drop-append (suc n) [] more h = absurd (omega arith)
drop-append (suc n) (c ∷ cs) more h = drop-append n cs more (omega arith)

pub get_or-append :
    (i d : ℕ) (p more : Bytes) → i < length p → get_or (p ++ more) i d ≡ get_or p i d
get_or-append i d [] more h = absurd (omega arith)
get_or-append zero d (c ∷ cs) more h = refl
get_or-append (suc i) d (c ∷ cs) more h = get_or-append i d cs more (omega arith)

pub distance-append :
    (p q more : Bytes) → length (p ++ more) - length (q ++ more) ≡ length p - length q
distance-append p q more = omega (arith, length-append p more, length-append q more)

pub find_crlf-append :
    (p q more : Bytes) → find_crlf p ≡ some q → find_crlf (p ++ more) ≡ some (q ++ more)
unfolding find_crlf
find_crlf-append [] q more h = cc
find_crlf-append (a ∷ []) q more h = cc
find_crlf-append (a ∷ b ∷ cs) q more h = elim (Bool-cases (a == b'\r' && b == b'\n')) [
  | inl e ↦
      let here : find_crlf (a ∷ b ∷ cs) ≡ some (a ∷ b ∷ cs) = rw e refl in
      rw e (ap (λ (x : Bytes). some (x ++ more)) (some-injective (a ∷ b ∷ cs) q (sym here ∙ h)))
  | inr e ↦
      let there : find_crlf (a ∷ b ∷ cs) ≡ find_crlf (b ∷ cs) = rw e refl in
      rw e (find_crlf-append (b ∷ cs) q more (sym there ∙ h))
]

pub find_header_end-append :
    (p q more : Bytes) → find_header_end p ≡ some q → find_header_end (p ++ more) ≡ some (q ++ more)
unfolding find_header_end
find_header_end-append [] q more h = cc
find_header_end-append (a ∷ []) q more h = cc
find_header_end-append (a ∷ b ∷ []) q more h = cc
find_header_end-append (a ∷ b ∷ c ∷ []) q more h = cc
find_header_end-append (a ∷ b ∷ c ∷ d ∷ es) q more h =
    elim (Bool-cases (a == b'\r' && b == b'\n' && c == b'\r' && d == b'\n')) [
      | inl e ↦
          find_header_end-here a b c d (es ++ more) e
          ∙ ap (λ (x : Bytes). some (x ++ more))
              (some-injective (a ∷ b ∷ c ∷ d ∷ es) q (sym (find_header_end-here a b c d es e) ∙ h))
      | inr e ↦
          find_header_end-there a b c d (es ++ more) e
          ∙ find_header_end-append (b ∷ c ∷ d ∷ es) q more
              (sym (find_header_end-there a b c d es e) ∙ h)
    ]

pub memchr-append :
    (p q more : Bytes) (c n : ℕ) → memchr p c n ≡ some q → memchr (p ++ more) c n ≡ some (q ++ more)
unfolding memchr
memchr-append p q more c zero h = cc
memchr-append [] q more c (suc n) h = cc
memchr-append (x ∷ xs) q more c (suc n) h = elim (Bool-cases (x == c)) [
  | inl e ↦
      let here : memchr (x ∷ xs) c (suc n) ≡ some (x ∷ xs) = rw e refl in
      rw e (ap (λ (y : Bytes). some (y ++ more)) (some-injective (x ∷ xs) q (sym here ∙ h)))
  | inr e ↦
      let there : memchr (x ∷ xs) c (suc n) ≡ memchr xs c n = rw e refl in
      rw e (memchr-append xs q more c n (sym there ∙ h))
]

pub memchr-append_none :
    (p more : Bytes) (c n : ℕ) → n ≤ length p → memchr p c n ≡ none → memchr (p ++ more) c n ≡ none
unfolding memchr
memchr-append_none p more c zero le h = refl
memchr-append_none [] more c (suc n) le h = absurd (omega arith)
memchr-append_none (x ∷ xs) more c (suc n) le h = elim (Bool-cases (x == c)) [
  | inl e ↦ let here : memchr (x ∷ xs) c (suc n) ≡ some (x ∷ xs) = rw e refl in cc (here, h)
  | inr e ↦
      let there : memchr (x ∷ xs) c (suc n) ≡ memchr xs c n = rw e refl in
      rw e (memchr-append_none xs more c n (omega arith) (sym there ∙ h))
]

pub memchr-length :
    (p q : Bytes) (c n : ℕ) → memchr p c n ≡ some q → (1 ≤ length q) × (length q ≤ length p)
unfolding memchr
memchr-length p q c zero h = cc
memchr-length [] q c (suc n) h = cc
memchr-length (x ∷ xs) q c (suc n) h = elim (Bool-cases (x == c)) [
  | inl e ↦
      let here : memchr (x ∷ xs) c (suc n) ≡ some (x ∷ xs) = rw e refl in
      let len : suc (length xs) ≡ length q = ap length (some-injective (x ∷ xs) q (sym here ∙ h)) in
      (omega (arith, len), omega (arith, len))
  | inr e ↦
      let there : memchr (x ∷ xs) c (suc n) ≡ memchr xs c n = rw e refl in
      let (one, le) = memchr-length xs q c n (sym there ∙ h) in (one, omega (arith, le))
]

pub between-append : (p q more : Bytes) → between (p ++ more) (q ++ more) ≡ between p q
between-append p q more =
    ap (λ (n : ℕ). take n (p ++ more)) (distance-append p q more)
    ∙ take-append (length p - length q) p more (omega arith)

pub skip_spaces-append :
    (n : ℕ) (p more : Bytes) → n ≤ length p → skip_spaces n (p ++ more) ≡ skip_spaces n p ++ more
unfolding skip_spaces
skip_spaces-append zero p more h = refl
skip_spaces-append (suc n) [] more h = absurd (omega arith)
skip_spaces-append (suc n) (c ∷ cs) more h = elim (Bool-cases (c == b' ')) [
  | inl e ↦ rw e (skip_spaces-append n cs more (omega arith))
  | inr e ↦ rw e refl
]
