-- ===== src/Http/Lines.antt =====
-- The request line and the header lines in src/http_parser.c.
use vek.Prelude.{
  ℕ, zero, suc, ◌-◌, Option, none, some, List, [], ◌∷◌, ◌++◌, Bytes, length, take, drop, get_or,
  ltb, leb, ◌==◌, if◌then◌else◌, bytes_eq, ℤ,
}
use vek.Lexer.Keywords.{codes}
use vek.Http.{
  HttpHeader, HttpParseResult, and_then, or_error, max_headers, find_crlf, memchr, between,
  skip_spaces, digit_value, ok, error, running,
}

pub record RequestLine : Type 0 where
  pub method_str : Bytes
  pub path : Bytes
  pub query_string : Option Bytes
  pub version_major : ℤ
  pub version_minor : ℤ

-- the path and the query string between `p` and the space `sp`
abbrev pub split_query : Bytes → Bytes → Bytes × Option Bytes
split_query p sp = elim (memchr p b'?' (length p - length sp)) [
  | none ↦ (between p sp, none)
  | some qmark ↦ (between p qmark, some (between (drop 1 qmark) sp))
]

-- the version, which starts at `p`
unfoldable pub parse_version : Bytes → Bytes → Option (ℤ × ℤ)
parse_version p line_end =
    if ltb (length p - length line_end) 8
    then none
    else if bytes_eq (take 5 p) (codes "HTTP/")
    then some (digit_value (get_or p 5 0), digit_value (get_or p 7 0))
    else none

-- the request line, and the position behind its CRLF
unfoldable pub parse_request_line : Bytes → HttpParseResult (RequestLine × Bytes)
parse_request_line buf = and_then (or_error (find_crlf buf)) (λ (line_end : Bytes).
    and_then (or_error (memchr buf b' ' (length buf - length line_end))) (λ (sp : Bytes).
      and_then (or_error (memchr (drop 1 sp) b' ' (length (drop 1 sp) - length line_end)))
        (λ (sp' : Bytes).
          and_then (or_error (parse_version (drop 1 sp') line_end)) (λ (version : ℤ × ℤ). ok (
            record {
              method_str = between buf sp;
              path = (split_query (drop 1 sp) sp').0;
              query_string = (split_query (drop 1 sp) sp').1;
              version_major = version.0;
              version_minor = version.1;
            },
            drop 2 line_end,
          )))))

-- the header between `p` and `hline_end`, whose colon is known
abbrev pub header_at : Bytes → Bytes → Bytes → HttpHeader
header_at p colon hline_end = record {
  name = between p colon;
  value = between (skip_spaces (length (drop 1 colon) - length hline_end) (drop 1 colon)) hline_end;
}

-- the loop over the header lines
unfoldable pub parse_headers :
    ℕ → Bytes → Bytes → List HttpHeader → HttpParseResult (List HttpHeader)
parse_headers zero p header_end headers = running
parse_headers (suc fuel) p header_end headers =
    if leb (length p) (length header_end) then ok headers else elim (find_crlf p) [
      | none ↦ error
      | some hline_end ↦
          if length hline_end == length p
          then ok headers
          else elim (memchr p b':' (length p - length hline_end)) [
            | none ↦ error
            | some colon ↦
                if leb max_headers (length headers)
                then error
                else parse_headers fuel (drop 2 hline_end) header_end
                    (headers ++ (header_at p colon hline_end ∷ []))
          ]
    ]
