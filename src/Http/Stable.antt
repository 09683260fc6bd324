-- ===== src/Http/Stable.antt =====
-- A request that src/http_parser.c accepts is accepted alike when more bytes follow in the buffer.
use vek.Prelude.{
  ℕ, zero, suc, ◌-◌, ◌≤◌, Bool-cases, Bool, false, ◌≡◌, ◌∙◌, refl, sym, ap, ap₂, inl, inr, Option,
  none, some, Option-cases, List, [], ◌∷◌, ◌++◌, Bytes, length, length-append, drop, leb, ltb, ◌==◌,
  arith, ℤ,
}
use vek.Http.{
  find_crlf, find_header_end, memchr, between, skip_spaces, HttpHeader, HttpRequest,
  HttpParseResult, ok, max_headers, or_error, and_then,
}
use vek.Http.Lines.{
  RequestLine, split_query, parse_version, parse_request_line, header_at, parse_headers,
}
use vek.Http.Request.{content_loop, finish_request, http_parse_request}
use vek.Http.Rounds.{and_then-ok, find_header_end-some}
use vek.Http.Framing.{after_headers, http_parse_request-found, http_parse_request-missing}
use vek.Http.Fuel.{find_crlf-length, or_error-ok}
use vek.Http.Append.{
  take-append, drop-append, get_or-append, distance-append, find_crlf-append,
  find_header_end-append, memchr-append, memchr-append_none, memchr-length, between-append,
  skip_spaces-append,
}

module _ (more : Bytes) where
  header_at-append :
      (p colon hl : Bytes)
      → 1 ≤ length colon
      → header_at (p ++ more) (colon ++ more) (hl ++ more) ≡ header_at p colon hl
  header_at-append p colon hl one =
      let next = drop-append 1 colon more one in
      let far =
        ap (λ (x : Bytes). length x - length (hl ++ more)) next
        ∙ distance-append (drop 1 colon) hl more in
      let spaces =
        ap₂ skip_spaces far next
        ∙ skip_spaces-append (length (drop 1 colon) - length hl) (drop 1 colon) more
            (omega arith) in
      ap₂ (λ (name value : Bytes). record { name = name; value = value })
        (between-append p colon more)
        (ap (λ (x : Bytes). between x (hl ++ more)) spaces ∙ between-append _ hl more)

  split_query-append : (p sp : Bytes) → split_query (p ++ more) (sp ++ more) ≡ split_query p sp
  split_query-append p sp = elim (Option-cases (memchr p b'?' (length p - length sp))) [
    | inl e ↦
        rw
          (
            split_query,
            distance-append p sp more,
            memchr-append_none p more b'?' (length p - length sp) (omega arith) e,
            e,
          )
          (ap (λ (x : Bytes). (x, none)) (between-append p sp more))
    | inr (q, e) ↦
        let (one, le) = memchr-length p q b'?' (length p - length sp) e in
        rw
          (
            split_query,
            distance-append p sp more,
            memchr-append p q more b'?' (length p - length sp) e,
            e,
          )
          (ap₂ (λ (x y : Bytes). (x, some y)) (between-append p q more)
            (ap (λ (x : Bytes). between x (sp ++ more)) (drop-append 1 q more one)
              ∙ between-append (drop 1 q) sp more))
  ]

  parse_version-append :
      (p le : Bytes) (v : ℤ × ℤ)
      → parse_version p le ≡ some v
      → parse_version (p ++ more) (le ++ more) ≡ some v
  unfolding parse_version
  parse_version-append p le v h = elim (Bool-cases (ltb (length p - length le) 8)) [
    | inl e ↦ let bad : parse_version p le ≡ none = rw e refl in cc (bad, h)
    | inr e ↦
        let long : 8 ≤ length p = ground (arith, e) in
        rw
          (
            distance-append p le more,
            e,
            take-append 5 p more (omega (arith, long)),
            get_or-append 5 0 p more (omega (arith, long)),
            get_or-append 7 0 p more (omega (arith, long)),
          )
          (rw e at h)
  ]

  -- the third stage of the request line and the ones after it
  or_error-some {ℓ} : {A : Type ℓ} (o : Option A) (a : A) → o ≡ some a → or_error o ≡ ok a
  or_error-some o a e = ap or_error e

  parse_request_line-append :
      (buf p : Bytes) (line : RequestLine)
      → parse_request_line buf ≡ ok (line, p)
      → parse_request_line (buf ++ more) ≡ ok (line, p ++ more)
  unfolding parse_request_line
  parse_request_line-append buf p line h =
      let (le, e, h1) = and_then-ok (or_error (find_crlf buf)) _ (line, p) h in
      let (sp, f, h2) =
        and_then-ok (or_error (memchr buf b' ' (length buf - length le))) _ (line, p) h1 in
      let (sp', g, h3) =
        and_then-ok (or_error (memchr (drop 1 sp) b' ' (length (drop 1 sp) - length le))) _
          (line, p) h2 in
      let (v, k, h4) = and_then-ok (or_error (parse_version (drop 1 sp') le)) _ (line, p) h3 in
      let e' = or_error-ok (find_crlf buf) le e in
      let f' = or_error-ok (memchr buf b' ' (length buf - length le)) sp f in
      let g' = or_error-ok (memchr (drop 1 sp) b' ' (length (drop 1 sp) - length le)) sp' g in
      let k' = or_error-ok (parse_version (drop 1 sp') le) v k in
      let (two, short) = find_crlf-length buf le e' in
      let (one, short') = memchr-length buf sp b' ' (length buf - length le) f' in
      let (one', short'') =
        memchr-length (drop 1 sp) sp' b' ' (length (drop 1 sp) - length le) g' in
      rw
        (
          find_crlf-append buf le more e',
          distance-append buf le more,
          memchr-append buf sp more b' ' (length buf - length le) f',
          drop-append 1 sp more one,
          distance-append (drop 1 sp) le more,
          memchr-append (drop 1 sp) sp' more b' ' (length (drop 1 sp) - length le) g',
          drop-append 1 sp' more one',
          parse_version-append (drop 1 sp') le v k',
          between-append buf sp more,
          split_query-append (drop 1 sp) sp',
          drop-append 2 le more two,
        )
        (ap
          (λ (r : HttpParseResult (RequestLine × Bytes)).
            and_then r (λ ((l, q) : RequestLine × Bytes). ok (l, q ++ more)))
          h4)

  leb-append :
      (p q : Bytes) → leb (length (p ++ more)) (length (q ++ more)) ≡ leb (length p) (length q)
  leb-append p q = rw (length-append p more, length-append q more) (ground arith)

  eq-append : (p q : Bytes) → (length (p ++ more) == length (q ++ more)) ≡ (length p == length q)
  eq-append p q = rw (length-append p more, length-append q more) (ground arith)

  parse_headers-append :
      (fuel : ℕ) (p he : Bytes) (hs out : List HttpHeader)
      → parse_headers fuel p he hs ≡ ok out
      → parse_headers fuel (p ++ more) (he ++ more) hs ≡ ok out
  unfolding parse_headers
  parse_headers-append zero p he hs out h = cc
  parse_headers-append (suc fuel) p he hs out h = elim (Bool-cases (leb (length p) (length he))) [
    | inl a ↦ rw (parse_headers, leb-append p he ∙ a) (rw (parse_headers, a) at h)
    | inr a ↦ elim (Option-cases (find_crlf p)) [
      | inl b ↦ cc (rw (parse_headers, a, b) at h)
      | inr (hl, b) ↦ elim (Bool-cases (length hl == length p)) [
        | inl c ↦
            rw
              (parse_headers, leb-append p he ∙ a, find_crlf-append p hl more b, eq-append hl p ∙ c)
              (rw (parse_headers, a, b, c) at h)
        | inr c ↦ elim (Option-cases (memchr p b':' (length p - length hl))) [
          | inl d ↦ cc (rw (parse_headers, a, b, c, d) at h)
          | inr (colon, d) ↦ elim (Bool-cases (leb max_headers (length hs))) [
            | inl e ↦ cc (rw (parse_headers, a, b, c, d, e) at h)
            | inr e ↦
                rw
                  (
                    parse_headers,
                    leb-append p he ∙ a,
                    find_crlf-append p hl more b,
                    eq-append hl p ∙ c,
                    distance-append p hl more,
                    memchr-append p colon more b':' (length p - length hl) d,
                    e,
                    header_at-append p colon hl
                        (memchr-length p colon b':' (length p - length hl) d).0,
                    drop-append 2 hl more (find_crlf-length p hl b).0,
                  )
                  (parse_headers-append fuel (drop 2 hl) he (hs ++ (header_at p colon hl ∷ [])) out
                    (rw (parse_headers, a, b, c, d, e) at h))
          ]
        ]
      ]
    ]
  ]

  finish_request-append :
      (buf : Bytes) (line : RequestLine) (hs : List HttpHeader) (p : Bytes) (n : ℕ) (keep : Bool)
      (req : HttpRequest)
      → finish_request (length buf) line hs p n keep ≡ ok req
      → finish_request (length (buf ++ more)) line hs (p ++ more) n keep ≡ ok req
  unfolding finish_request
  finish_request-append buf line hs p n keep req h = elim (Bool-cases (ltb 0 n)) [
    | inl a ↦ elim (Bool-cases (ltb (length p) n)) [
      | inl b ↦ cc (rw (a, b) at h)
      | inr b ↦
          let long : ltb (length (p ++ more)) n ≡ false = ground (arith, b, length-append p more) in
          rw (a, long, take-append n p more (ground (arith, b)), distance-append buf p more)
            (rw (a, b) at h)
    ]
    | inr a ↦ rw (a, distance-append buf p more) (rw a at h)
  ]

  after_headers-append :
      (fuel : ℕ) (buf he : Bytes) (req : HttpRequest)
      → 4 ≤ length he
      → after_headers fuel buf he ≡ ok req
      → after_headers fuel (buf ++ more) (he ++ more) ≡ ok req
  after_headers-append fuel buf he req four h =
      let ((line, p), e, h1) = and_then-ok (parse_request_line buf) _ req h in
      let (hs, f, h2) = and_then-ok (parse_headers fuel p he []) _ req h1 in
      let ((n, keep), g, h3) = and_then-ok (content_loop hs 0 false) _ req h2 in
      rw
        (
          parse_request_line-append buf p line e,
          parse_headers-append fuel p he [] hs f,
          g,
          drop-append 4 he more four,
        )
        (finish_request-append buf line hs (drop 4 he) n keep req h3)

-- A request that is accepted in a buffer is accepted, with the same fields and the same count of bytes,
-- in every buffer that begins with that one: what arrives behind a request does not change it.
pub http_parse_request-append :
    (fuel : ℕ) (buf more : Bytes) (req : HttpRequest)
    → http_parse_request fuel buf ≡ ok req
    → http_parse_request fuel (buf ++ more) ≡ ok req
http_parse_request-append fuel buf more req h = elim (Option-cases (find_header_end buf)) [
  | inl e ↦ cc (http_parse_request-missing fuel buf e, h)
  | inr (q, e) ↦
      let (head, rest, whole, at) = find_header_end-some buf q e in
      let four : 4 ≤ length q = omega (arith, ap length at) in
      http_parse_request-found fuel (buf ++ more) (q ++ more) (find_header_end-append buf q more e)
      ∙ after_headers-append more fuel buf q req four
          (sym (http_parse_request-found fuel buf q e) ∙ h)
]
