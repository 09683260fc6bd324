-- ===== src/Http/Request.antt =====
-- `http_parse_request` of src/http_parser.c, past the header lines, and `http_get_header`.
use vek.Prelude.{
  ℕ, ◌+◌, ◌-◌, ◌*◌, ◌%◌, Bool, true, false, ◌&&◌, Option, none, some, List, [], ◌∷◌, Bytes, length,
  take, drop, ltb, leb, ◌==◌, if◌then◌else◌, ℤ, pos, negsuc,
}
use vek.Lexer.Keywords.{codes}
use vek.Http.{
  HttpHeader, HttpRequest, HttpParseResult, and_then, max_body_size, size_mod, strncasecmp_eq,
  parse_method, find_header_end, ok, incomplete, error,
}
use vek.Http.Lines.{RequestLine, parse_request_line, parse_headers}

-- the digits of a content length, in a `size_t`; other bytes are passed over
unfoldable pub content_digits : Bytes → ℕ → ℕ
content_digits [] n = n
content_digits (c ∷ cs) n =
    if leb b'0' c && leb c b'9'
    then content_digits cs ((n * 10 + (c - b'0')) % size_mod)
    else content_digits cs n

abbrev pub is_content_length : HttpHeader → Bool
is_content_length h = strncasecmp_eq h.name (codes "content-length")

abbrev pub is_connection : HttpHeader → Bool
is_connection h = strncasecmp_eq h.name (codes "connection")

-- the connection header's value on `keep_alive`
abbrev pub connection_value : Bytes → Bool → Bool
connection_value value keep_alive =
    if strncasecmp_eq value (codes "close")
    then false
    else if strncasecmp_eq value (codes "keep-alive")
    then true
    else keep_alive

-- the first loop over the headers, on `content_length` and `keep_alive`
unfoldable pub content_loop : List HttpHeader → ℕ → Bool → HttpParseResult (ℕ × Bool)
content_loop [] content_length keep_alive = ok (content_length, keep_alive)
content_loop (h ∷ hs) content_length keep_alive =
    let length' = if is_content_length h then content_digits h.value 0 else content_length in
    let keep_alive' = if is_connection h then connection_value h.value keep_alive else keep_alive in
    if is_content_length h && ltb max_body_size length'
    then error
    else content_loop hs length' keep_alive'

-- the second loop
abbrev pub found_connection : List HttpHeader → Bool
found_connection [] = false
found_connection (h ∷ hs) = if is_connection h then true else found_connection hs

abbrev pub is_one : ℤ → Bool
is_one (pos n) = n == 1
is_one (negsuc n) = false

abbrev pub default_keep_alive : RequestLine → List HttpHeader → Bool → Bool
default_keep_alive line headers keep_alive =
    if found_connection headers
    then keep_alive
    else is_one line.version_major && is_one line.version_minor

abbrev pub request_of : RequestLine → List HttpHeader → ℕ → Bool → Option Bytes → ℕ → HttpRequest
request_of line headers content_length keep_alive body consumed = record {
  method = parse_method line.method_str;
  method_str = line.method_str;
  path = line.path;
  query_string = line.query_string;
  version_major = line.version_major;
  version_minor = line.version_minor;
  headers = headers;
  body = body;
  content_length = content_length;
  keep_alive = default_keep_alive line headers keep_alive;
  bytes_consumed = consumed;
}

-- the body, from the position behind the headers, in a buffer of `len` bytes
unfoldable pub finish_request :
    ℕ → RequestLine → List HttpHeader → Bytes → ℕ → Bool → HttpParseResult HttpRequest
finish_request len line headers p content_length keep_alive =
    let request = request_of line headers content_length keep_alive in
    if ltb 0 content_length
    then (if ltb (length p) content_length
        then incomplete
        else ok (request (some (take content_length p)) (len - length p + content_length)))
    else ok (request none (len - length p))

unfoldable pub http_parse_request : ℕ → Bytes → HttpParseResult HttpRequest
http_parse_request fuel buf = elim (find_header_end buf) [
  | none ↦ incomplete
  | some header_end ↦ and_then (parse_request_line buf) (λ ((line, p) : RequestLine × Bytes).
      and_then (parse_headers fuel p header_end []) (λ (headers : List HttpHeader).
        and_then (content_loop headers 0 false) (λ ((content_length, keep_alive) : ℕ × Bool).
          finish_request (length buf) line headers (drop 4 header_end) content_length keep_alive)))
]

-- the value, or NULL
unfoldable pub http_get_header : List HttpHeader → Bytes → Option Bytes
http_get_header [] name = none
http_get_header (h ∷ hs) name =
    if strncasecmp_eq h.name name then some h.value else http_get_header hs name
