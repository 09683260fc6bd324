-- ===== src/Http/Fuel.antt =====
-- The loops of src/http_parser.c end.
use vek.Prelude.{
  ℕ, zero, suc, ◌-◌, ◌≤◌, ◌<◌, Bool-cases, Bool, false, ◌&&◌, ◌≡◌, ◌≢◌, ◌∙◌, refl, sym, ap, inl,
  inr, Option, none, some, Option-cases, List, [], ◌∷◌, ◌++◌, Bytes, length, drop, ◌==◌, arith,
  length-drop, ltb,
}
use mathlib.Core.Option.{some-injective}
use vek.Http.{
  HttpParseResult, ok, incomplete, error, running, and_then, or_error, HttpHeader, find_crlf,
  memchr, find_header_end,
}
use vek.Http.Lines.{RequestLine, parse_version, parse_request_line, parse_headers}
use vek.Http.Request.{http_parse_request, content_loop, finish_request}
use vek.Http.Framing.{http_parse_request-found, http_parse_request-missing}
use vek.Http.Rounds.{and_then-ok, ok-injective, content_loop-cases, parse_headers-cases}

-- a stage that ends, followed by one that ends whenever it is reached
and_then-ends {ℓ κ} :
    {A : Type ℓ} {B : Type κ} (r : HttpParseResult A) (go : A → HttpParseResult B)
    → r ≢ running
    → ((a : A) → r ≡ ok a → go a ≢ running)
    → and_then r go ≢ running
and_then-ends (ok a) go h k = k a refl
and_then-ends incomplete go h k = λ e. cc
and_then-ends error go h k = λ e. cc
and_then-ends running go h k = λ e. h refl

or_error-ends {ℓ} : {A : Type ℓ} (o : Option A) → or_error o ≢ running
or_error-ends none e = cc
or_error-ends (some a) e = cc

pub find_crlf-length : (p q : Bytes) → find_crlf p ≡ some q → (2 ≤ length q) × (length q ≤ length p)
unfolding find_crlf
find_crlf-length [] q h = cc
find_crlf-length (a ∷ []) q h = cc
find_crlf-length (a ∷ b ∷ cs) q h = elim (Bool-cases (a == b'\r' && b == b'\n')) [
  | inl e ↦
      let here : find_crlf (a ∷ b ∷ cs) ≡ some (a ∷ b ∷ cs) = rw e refl in
      let len : suc (suc (length cs)) ≡ length q =
        ap length (some-injective (a ∷ b ∷ cs) q (sym here ∙ h)) in
      (omega (arith, len), omega (arith, len))
  | inr e ↦
      let there : find_crlf (a ∷ b ∷ cs) ≡ find_crlf (b ∷ cs) = rw e refl in
      let (two, le) = find_crlf-length (b ∷ cs) q (sym there ∙ h) in (two, omega (arith, le))
]

parse_headers-ends :
    (fuel : ℕ) (p header_end : Bytes) (headers : List HttpHeader)
    → length p < fuel
    → parse_headers fuel p header_end headers ≢ running
parse_headers-ends zero p header_end headers h = absurd (omega arith)
parse_headers-ends (suc fuel) p header_end headers h =
    elim (parse_headers-cases fuel p header_end headers) [
      | inl e ↦ λ f. cc
      | inr (inl e) ↦ λ f. cc
      | inr (inr (hline_end, x, b, lt, e)) ↦
          let (two, le) = find_crlf-length p hline_end b in
          λ f.
            parse_headers-ends fuel (drop 2 hline_end) header_end (headers ++ (x ∷ []))
              (omega (arith, two, le, length-drop 2 hline_end)) (sym e ∙ f)
    ]

parse_request_line-ends : (buf : Bytes) → parse_request_line buf ≢ running
unfolding parse_request_line
parse_request_line-ends buf =
    and_then-ends (or_error (find_crlf buf)) _ (or_error-ends _) (λ line_end e.
      and_then-ends (or_error (memchr buf b' ' _)) _ (or_error-ends _) (λ sp f.
        and_then-ends (or_error (memchr (drop 1 sp) b' ' _)) _ (or_error-ends _) (λ sp' g.
          and_then-ends (or_error (parse_version (drop 1 sp') line_end)) _ (or_error-ends _)
            (λ v k x. cc))))

pub or_error-ok {ℓ} : {A : Type ℓ} (o : Option A) (a : A) → or_error o ≡ ok a → o ≡ some a
or_error-ok none a e = cc
or_error-ok (some b) a e = ap some (ok-injective b a e)

-- the position behind the request line
parse_request_line-length :
    (buf p : Bytes) (line : RequestLine)
    → parse_request_line buf ≡ ok (line, p)
    → length p ≤ length buf
unfolding parse_request_line
parse_request_line-length buf p line h =
    let (line_end, e, h1) = and_then-ok (or_error (find_crlf buf)) _ (line, p) h in
    let (sp, f, h2) =
      and_then-ok (or_error (memchr buf b' ' (length buf - length line_end))) _ (line, p) h1 in
    let (sp', g, h3) =
      and_then-ok (or_error (memchr (drop 1 sp) b' ' (length (drop 1 sp) - length line_end))) _
        (line, p) h2 in
    let (v, k, h4) = and_then-ok (or_error (parse_version (drop 1 sp') line_end)) _ (line, p) h3 in
    let (two, le) = find_crlf-length buf line_end (or_error-ok (find_crlf buf) line_end e) in
    let same : length (drop 2 line_end) ≡ length p =
      ap (λ (x : RequestLine × Bytes). length x.1) (ok-injective _ (line, p) h4) in
    omega (arith, le, same, length-drop 2 line_end)

content_loop-ends : (hs : List HttpHeader) (n : ℕ) (keep : Bool) → content_loop hs n keep ≢ running
unfolding content_loop
content_loop-ends [] n keep e = cc
content_loop-ends (x ∷ hs) n keep e = elim (content_loop-cases x hs n keep) [
  | inl f ↦ cc
  | inr (n', keep', keeps, f) ↦ content_loop-ends hs n' keep' (sym f ∙ e)
]

finish_request-ends :
    (len : ℕ) (line : RequestLine) (hs : List HttpHeader) (p : Bytes) (n : ℕ) (keep : Bool)
    → finish_request len line hs p n keep ≢ running
unfolding finish_request
finish_request-ends len line hs p n keep e = elim (Bool-cases (ltb 0 n)) [
  | inl a ↦ elim (Bool-cases (ltb (length p) n)) [
    | inl b ↦ cc (rw (a, b) at e)
    | inr b ↦ cc (rw (a, b) at e)
  ]
  | inr a ↦ cc (rw a at e)
]

-- With more fuel than the buffer has bytes, every loop of the parser ends.
pub http_parse_request-ends :
    (fuel : ℕ) (buf : Bytes) → length buf < fuel → http_parse_request fuel buf ≢ running
http_parse_request-ends fuel buf lt run = elim (Option-cases (find_header_end buf)) [
  | inl e ↦ cc (http_parse_request-missing fuel buf e, run)
  | inr (q, e) ↦
      and_then-ends (parse_request_line buf) _ (parse_request_line-ends buf)
        (λ (line, p) f.
          and_then-ends (parse_headers fuel p q []) _
            (parse_headers-ends fuel p q []
              (omega (arith, lt, parse_request_line-length buf p line f)))
            (λ hs g.
              and_then-ends (content_loop hs 0 false) _ (content_loop-ends hs 0 false)
                (λ (n, keep) k. finish_request-ends (length buf) line hs (drop 4 q) n keep)))
        (sym (http_parse_request-found fuel buf q e) ∙ run)
]
