-- ===== src/Http/Rounds.antt =====
-- The loops of src/http_parser.c, a round at a time.
use vek.Prelude.{
  ℕ, zero, suc, ◌-◌, ◌≤◌, ◌<◌, Bool-cases, Bool, true, false, ◌&&◌, ◌≡◌, ◌∙◌, refl, sym, ap, subst,
  ◌⊎◌, inl, inr, some, Option-cases, List, [], ◌∷◌, ◌++◌, Bytes, length, length-append, drop, leb,
  ltb, ◌==◌, if◌then◌else◌, arith,
}
use mathlib.Core.Option.{some-injective}
use vek.Http.{
  HttpParseResult, ok, incomplete, error, running, and_then, HttpHeader, find_header_end,
  max_body_size, max_headers, find_crlf, memchr,
}
use vek.Http.Lines.{parse_headers, header_at}
use vek.Http.Request.{
  content_loop, is_content_length, is_connection, connection_value, content_digits,
}

abbrev pub blank_line : Bytes
blank_line = b'\r' ∷ b'\n' ∷ b'\r' ∷ b'\n' ∷ []

-- what the first of two stages gave
pub and_then-ok {ℓ κ} :
    {A : Type ℓ} {B : Type κ} (r : HttpParseResult A) (go : A → HttpParseResult B) (b : B)
    → and_then r go ≡ ok b
    → (a : A) × (r ≡ ok a) × (go a ≡ ok b)
and_then-ok (ok a) go b e = (a, refl, e)
and_then-ok incomplete go b e = cc
and_then-ok error go b e = cc
and_then-ok running go b e = cc

ok_of {ℓ} : {A : Type ℓ} → A → HttpParseResult A → A
ok_of d (ok a) = a
ok_of d _ = d

pub ok-injective {ℓ} : {A : Type ℓ} (a b : A) → ok a ≡ ok b → a ≡ b
unfolding ok_of
ok-injective a b e = ap (ok_of a) e

four-eq :
    (a b c d : ℕ)
    → (a == b'\r' && b == b'\n' && c == b'\r' && d == b'\n') ≡ true
    → (a ≡ b'\r') × (b ≡ b'\n') × (c ≡ b'\r') × (d ≡ b'\n')
four-eq a b c d h = ground (arith, h)

pub find_header_end-here :
    (a b c d : ℕ) (es : Bytes)
    → (a == b'\r' && b == b'\n' && c == b'\r' && d == b'\n') ≡ true
    → find_header_end (a ∷ b ∷ c ∷ d ∷ es) ≡ some (a ∷ b ∷ c ∷ d ∷ es)
unfolding find_header_end
find_header_end-here a b c d es e = rw e refl

pub find_header_end-there :
    (a b c d : ℕ) (es : Bytes)
    → (a == b'\r' && b == b'\n' && c == b'\r' && d == b'\n') ≡ false
    → find_header_end (a ∷ b ∷ c ∷ d ∷ es) ≡ find_header_end (b ∷ c ∷ d ∷ es)
unfolding find_header_end
find_header_end-there a b c d es e = rw e refl

-- the end of the headers is a blank line of the buffer
pub find_header_end-some :
    (buf q : Bytes)
    → find_header_end buf ≡ some q
    → (front rest : Bytes) × (buf ≡ front ++ (blank_line ++ rest)) × (q ≡ blank_line ++ rest)
unfolding find_header_end
find_header_end-some [] q h = cc
find_header_end-some (a ∷ []) q h = cc
find_header_end-some (a ∷ b ∷ []) q h = cc
find_header_end-some (a ∷ b ∷ c ∷ []) q h = cc
find_header_end-some (a ∷ b ∷ c ∷ d ∷ es) q h =
    elim (Bool-cases (a == b'\r' && b == b'\n' && c == b'\r' && d == b'\n')) [
      | inl e ↦
          let (ea, eb, ec, ed) = four-eq a b c d e in
          let blank : ◌≡◌ {A = Bytes} (a ∷ b ∷ c ∷ d ∷ es) (blank_line ++ es) =
            rw (ea, eb, ec, ed) refl in
          (
            [],
            es,
            blank,
            some-injective q (a ∷ b ∷ c ∷ d ∷ es) (sym h ∙ find_header_end-here a b c d es e)
                ∙ blank,
          )
      | inr e ↦
          let (front, rest, whole, at) =
            find_header_end-some (b ∷ c ∷ d ∷ es) q
              (sym (find_header_end-there a b c d es e) ∙ h) in
          (a ∷ front, rest, ap (◌∷◌ a) whole, at)
    ]

-- how a round of the header loop ends
pub parse_headers-cases :
    (fuel : ℕ) (p header_end : Bytes) (headers : List HttpHeader)
    → (parse_headers (suc fuel) p header_end headers ≡ ok headers)
      ⊎ ((parse_headers (suc fuel) p header_end headers ≡ error)
          ⊎ ((hline_end : Bytes) × (h : HttpHeader) × (find_crlf p ≡ some hline_end)
              × (length headers < max_headers)
              × (parse_headers (suc fuel) p header_end headers
                  ≡ parse_headers fuel (drop 2 hline_end) header_end (headers ++ (h ∷ [])))))
unfolding parse_headers
parse_headers-cases fuel p header_end headers =
    elim (Bool-cases (leb (length p) (length header_end))) [
      | inl a ↦ inl (rw (parse_headers, a) refl)
      | inr a ↦ elim (Option-cases (find_crlf p)) [
        | inl b ↦ inr (inl (rw (parse_headers, a, b) refl))
        | inr (hline_end, b) ↦ elim (Bool-cases (length hline_end == length p)) [
          | inl c ↦ inl (rw (parse_headers, a, b, c) refl)
          | inr c ↦ elim (Option-cases (memchr p b':' (length p - length hline_end))) [
            | inl d ↦ inr (inl (rw (parse_headers, a, b, c, d) refl))
            | inr (colon, d) ↦ elim (Bool-cases (leb max_headers (length headers))) [
              | inl e ↦ inr (inl (rw (parse_headers, a, b, c, d, e) refl))
              | inr e ↦ inr (
                  inr (
                    hline_end,
                    header_at p colon hline_end,
                    b,
                    ground (arith, e),
                    rw (parse_headers, a, b, c, d, e) refl,
                  ))
            ]
          ]
        ]
      ]
    ]

-- the headers that the loop adds stay below the maximum
pub parse_headers-few :
    (fuel : ℕ) (p header_end : Bytes) (headers out : List HttpHeader)
    → length headers ≤ max_headers
    → parse_headers fuel p header_end headers ≡ ok out
    → length out ≤ max_headers
unfolding parse_headers
parse_headers-few zero p header_end headers out room h = cc
parse_headers-few (suc fuel) p header_end headers out room h =
    elim (parse_headers-cases fuel p header_end headers) [
      | inl e ↦
          subst (λ (hs : List HttpHeader). length hs ≤ max_headers)
            (ok-injective headers out (sym e ∙ h)) room
      | inr (inl e) ↦ cc
      | inr (inr (hline_end, x, b, lt, e)) ↦
          parse_headers-few fuel (drop 2 hline_end) header_end (headers ++ (x ∷ [])) out
            (omega (arith, lt, length-append headers (x ∷ []))) (sym e ∙ h)
    ]

pub content_loop-cases :
    (x : HttpHeader) (hs : List HttpHeader) (n : ℕ) (keep : Bool)
    → (content_loop (x ∷ hs) n keep ≡ error)
      ⊎ ((n' : ℕ) × (keep' : Bool) × (n ≤ max_body_size → n' ≤ max_body_size)
          × (content_loop (x ∷ hs) n keep ≡ content_loop hs n' keep'))
unfolding content_loop
content_loop-cases x hs n keep =
    let keep' = if is_connection x then connection_value x.value keep else keep in
    elim (Bool-cases (is_content_length x)) [
      | inl e ↦ elim (Bool-cases (ltb max_body_size (content_digits x.value 0))) [
        | inl f ↦ inl (rw (content_loop, e, f) refl)
        | inr f ↦ inr (
          content_digits x.value 0,
          keep',
          (λ h. ground (arith, f)),
          rw (content_loop, e, f) refl,
        )
      ]
      | inr e ↦ inr (n, keep', (λ h. h), rw (content_loop, e) refl)
    ]

pub content_loop-bounded :
    (hs : List HttpHeader) (n : ℕ) (keep : Bool) (out : ℕ × Bool)
    → n ≤ max_body_size
    → content_loop hs n keep ≡ ok out
    → out.0 ≤ max_body_size
unfolding content_loop
content_loop-bounded [] n keep out room h =
    subst (λ (o : ℕ × Bool). o.0 ≤ max_body_size) (ok-injective (n, keep) out h) room
content_loop-bounded (x ∷ hs) n keep out room h = elim (content_loop-cases x hs n keep) [
  | inl e ↦ cc
  | inr (n', keep', keeps, e) ↦ content_loop-bounded hs n' keep' out (keeps room) (sym e ∙ h)
]
