-- ===== src/Http/Framing.antt =====
-- What src/http_parser.c says of the buffer when it accepts a request.
use vek.Prelude.{
  ℕ, ◌+◌, ◌-◌, ◌≤◌, Bool-cases, Bool, false, ◌≡◌, ◌∙◌, refl, sym, ap, ap₂, subst, ◌⊎◌, inl, inr,
  none, some, Option-cases, List, [], ◌++◌, Bytes, length, length-append, take, drop, ltb, arith,
  ◌<◌, ◌==◌, if◌then◌else◌, take-append-drop, length-take,
}
use vek.Http.{
  HttpParseResult, ok, incomplete, and_then, HttpRequest, HttpHeader, find_header_end,
  max_body_size, max_headers,
}
use vek.Http.Lines.{RequestLine, parse_request_line, parse_headers}
use vek.Http.Request.{http_parse_request, content_loop, finish_request, request_of}
use vek.Http.Rounds.{
  blank_line, and_then-ok, ok-injective, find_header_end-some, parse_headers-few,
  content_loop-bounded,
}

-- The buffer is a head, a blank line, the body and a rest, and the request counts all but the rest.
pub record IsFramed (buf : Bytes) (req : HttpRequest) : Type 0 where
  pub head : Bytes
  pub bytes : Bytes
  pub rest : Bytes
  pub whole : buf ≡ head ++ (blank_line ++ (bytes ++ rest))
  pub consumed : req.bytes_consumed ≡ length head + 4 + length bytes
  pub sized : length bytes ≡ req.content_length
  pub body : req.body ≡ (if req.content_length == 0 then none else some bytes)
  pub bounded : req.content_length ≤ max_body_size
  pub few : length req.headers ≤ max_headers

module _ (line : RequestLine) (hs : List HttpHeader) (n : ℕ) (keep : Bool) (head rest : Bytes)
    (few : length hs ≤ max_headers) (bounded : n ≤ max_body_size) where
  abbrev total : ℕ
  total = length (head ++ (blank_line ++ rest))

  total-eq : total - length rest ≡ length head + 4
  total-eq = omega (arith, length-append head (blank_line ++ rest))

  IsFramed-bare :
      n ≡ 0
      → IsFramed
          (head ++ (blank_line ++ rest))
          (request_of line hs n keep none (total - length rest))
  IsFramed-bare e = record {
    head = head;
    bytes = [];
    rest = rest;
    whole = refl;
    consumed = omega (arith, total-eq);
    sized = sym e;
    body = rw e refl;
    bounded = bounded;
    few = few;
  }

  IsFramed-body :
      0 < n
      → n ≤ length rest
      → IsFramed
          (head ++ (blank_line ++ rest))
          (request_of line hs n keep (some (take n rest)) (total - length rest + n))
  IsFramed-body some_body le =
      let len : length (take n rest) ≡ n = omega (arith, le, length-take n rest) in
      let filled : (n == 0) ≡ false = ground arith in
      record {
        head = head;
        bytes = take n rest;
        rest = drop n rest;
        whole = ap (λ (r : Bytes). head ++ (blank_line ++ r)) (sym (take-append-drop n rest));
        consumed = omega (arith, total-eq, len);
        sized = len;
        body = rw filled refl;
        bounded = bounded;
        few = few;
      }

  -- how the body is taken
  finish_request-cases :
      (finish_request total line hs rest n keep ≡ incomplete)
      ⊎ (((0 < n)
            × (n ≤ length rest)
            × (finish_request total line hs rest n keep
                ≡ ok (request_of line hs n keep (some (take n rest)) (total - length rest + n))))
          ⊎ ((n ≡ 0)
              × (finish_request total line hs rest n keep
                  ≡ ok (request_of line hs n keep none (total - length rest)))))
  unfolding finish_request
  finish_request-cases = elim (Bool-cases (ltb 0 n)) [
    | inl e ↦ elim (Bool-cases (ltb (length rest) n)) [
      | inl f ↦ inl (rw (e, f) refl)
      | inr f ↦ inr (inl (ground (arith, e), ground (arith, f), rw (e, f) refl))
    ]
    | inr e ↦ inr (inr (ground (arith, e), rw e refl))
  ]

  finish_request-IsFramed :
      (req : HttpRequest)
      → finish_request total line hs rest n keep ≡ ok req
      → IsFramed (head ++ (blank_line ++ rest)) req
  finish_request-IsFramed req h = elim finish_request-cases [
    | inl e ↦ cc
    | inr (inl (some_body, le, e)) ↦
        subst (IsFramed (head ++ (blank_line ++ rest))) (ok-injective _ req (sym e ∙ h))
          (IsFramed-body some_body le)
    | inr (inr (z, e)) ↦
        subst (IsFramed (head ++ (blank_line ++ rest))) (ok-injective _ req (sym e ∙ h))
          (IsFramed-bare z)
  ]

abbrev pub after_headers : ℕ → Bytes → Bytes → HttpParseResult HttpRequest
after_headers fuel buf header_end =
    and_then (parse_request_line buf) (λ ((line, p) : RequestLine × Bytes).
      and_then (parse_headers fuel p header_end []) (λ (headers : List HttpHeader).
        and_then (content_loop headers 0 false) (λ ((content_length, keep_alive) : ℕ × Bool).
          finish_request (length buf) line headers (drop 4 header_end) content_length keep_alive)))

pub http_parse_request-found :
    (fuel : ℕ) (buf header_end : Bytes)
    → find_header_end buf ≡ some header_end
    → http_parse_request fuel buf ≡ after_headers fuel buf header_end
unfolding http_parse_request
http_parse_request-found fuel buf header_end e = rw (http_parse_request, e) refl

pub http_parse_request-missing :
    (fuel : ℕ) (buf : Bytes) → find_header_end buf ≡ none → http_parse_request fuel buf ≡ incomplete
unfolding http_parse_request
http_parse_request-missing fuel buf e = rw (http_parse_request, e) refl

after_headers-IsFramed :
    (fuel : ℕ) (head rest : Bytes) (req : HttpRequest)
    → after_headers fuel (head ++ (blank_line ++ rest)) (blank_line ++ rest) ≡ ok req
    → IsFramed (head ++ (blank_line ++ rest)) req
after_headers-IsFramed fuel head rest req h =
    let ((line, p), e, h1) =
      and_then-ok (parse_request_line (head ++ (blank_line ++ rest))) _ req h in
    let (hs, f, h2) = and_then-ok (parse_headers fuel p (blank_line ++ rest) []) _ req h1 in
    let ((n, keep), g, h3) = and_then-ok (content_loop hs 0 false) _ req h2 in
    finish_request-IsFramed line hs n keep head rest
      (parse_headers-few fuel p (blank_line ++ rest) [] hs (omega arith) f)
      (content_loop-bounded hs 0 false (n, keep) (omega arith) g) req h3

-- A buffer that the parser accepts is a head, a blank line, a body and a rest, where the request
-- counts exactly the bytes before the rest, the body has the content length, which is at most 1 MB,
-- and is NULL if that is 0, and there are at most 64 headers.
pub http_parse_request-IsFramed :
    (fuel : ℕ) (buf : Bytes) (req : HttpRequest)
    → http_parse_request fuel buf ≡ ok req
    → IsFramed buf req
http_parse_request-IsFramed fuel buf req h = elim (Option-cases (find_header_end buf)) [
  | inl e ↦ cc (http_parse_request-missing fuel buf e, h)
  | inr (q, e) ↦
      let (head, rest, whole, at) = find_header_end-some buf q e in
      let run = sym (http_parse_request-found fuel buf q e) ∙ h in
      subst (λ (b : Bytes). IsFramed b req) (sym whole)
        (after_headers-IsFramed fuel head rest req (sym (ap₂ (after_headers fuel) whole at) ∙ run))
]
