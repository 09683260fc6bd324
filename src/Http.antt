-- ===== src/Http.antt =====
-- The request parser of src/http_parser.c. A pointer into the buffer is the list of the bytes from it to
-- the end of the buffer, so that `p < q` is a longer list; a pointer and a length into the request are
-- the bytes they delimit.
pub mod Lines
pub mod Request
pub mod Rounds
pub mod Append
pub mod Stable
pub mod Content
pub mod Methods
mod Tests
pub mod Framing
pub mod Fuel
use Prim.Native.String.{String}
use vek.Prelude.{
  ℕ, zero, suc, ◌+◌, ◌-◌, ◌*◌, ◌%◌, ◌^◌, Bool, true, false, ◌&&◌, Option, none, some, List, [], ◌∷◌,
  ◌++◌, Bytes, length, take, drop, get_or, ltb, leb, ◌==◌, if◌then◌else◌, bytes_eq, ℤ, pos, negsuc,
}
use vek.Lexer.Keywords.{codes}

pub data HttpMethod : Type 0 where
  http_get http_post http_put http_patch http_delete http_head http_options http_method_unknown :
      HttpMethod

pub record HttpHeader : Type 0 where
  pub name : Bytes
  pub value : Bytes

-- `none` is NULL
pub record HttpRequest : Type 0 where
  pub method : HttpMethod
  pub method_str : Bytes
  pub path : Bytes
  pub query_string : Option Bytes
  pub version_major : ℤ
  pub version_minor : ℤ
  pub headers : List HttpHeader
  pub body : Option Bytes
  pub content_length : ℕ
  pub keep_alive : Bool
  pub bytes_consumed : ℕ

-- The callers read the request only if the result is OK. `running` is a loop that has not ended
-- within its fuel.
pub data HttpParseResult {ℓ} (A : Type ℓ) : Type ℓ where
  ok : A → HttpParseResult A
  incomplete : HttpParseResult A
  error : HttpParseResult A
  running : HttpParseResult A

abbrev pub and_then {ℓ κ} :
    {A : Type ℓ} {B : Type κ} → HttpParseResult A → (A → HttpParseResult B) → HttpParseResult B
and_then (ok a) go = go a
and_then incomplete go = incomplete
and_then error go = error
and_then running go = running

-- a search that must not fail
abbrev pub or_error {ℓ} : {A : Type ℓ} → Option A → HttpParseResult A
or_error none = error
or_error (some a) = ok a

abbrev pub max_body_size : ℕ
max_body_size = 1024 * 1024

abbrev pub max_headers : ℕ
max_headers = 64

abbrev pub size_mod : ℕ
size_mod = 2 ^ 64

abbrev pub to_lower : ℕ → ℕ
to_lower c = if leb b'A' c && leb c b'Z' then c + 32 else c

unfoldable pub strncasecmp_eq : Bytes → Bytes → Bool
strncasecmp_eq [] [] = true
strncasecmp_eq (a ∷ as') (b ∷ bs) = to_lower a == to_lower b && strncasecmp_eq as' bs
strncasecmp_eq _ _ = false

unfoldable pub parse_method : Bytes → HttpMethod
parse_method s =
    if bytes_eq s (codes "GET")
    then http_get
    else if bytes_eq s (codes "PUT")
    then http_put
    else if bytes_eq s (codes "POST")
    then http_post
    else if bytes_eq s (codes "HEAD")
    then http_head
    else if bytes_eq s (codes "PATCH")
    then http_patch
    else if bytes_eq s (codes "DELETE")
    then http_delete
    else if bytes_eq s (codes "OPTIONS")
    then http_options
    else http_method_unknown

abbrev pub http_method_str : HttpMethod → Bytes
http_method_str http_get = codes "GET"
http_method_str http_post = codes "POST"
http_method_str http_put = codes "PUT"
http_method_str http_patch = codes "PATCH"
http_method_str http_delete = codes "DELETE"
http_method_str http_head = codes "HEAD"
http_method_str http_options = codes "OPTIONS"
http_method_str http_method_unknown = codes "UNKNOWN"

unfoldable pub find_crlf : Bytes → Option Bytes
find_crlf [] = none
find_crlf (a ∷ []) = none
find_crlf (a ∷ b ∷ cs) =
    let rest = find_crlf (b ∷ cs) in if a == b'\r' && b == b'\n' then some (a ∷ b ∷ cs) else rest

-- the loop for `header_end`
unfoldable pub find_header_end : Bytes → Option Bytes
find_header_end (a ∷ b ∷ c ∷ d ∷ es) =
    let rest = find_header_end (b ∷ c ∷ d ∷ es) in
    if a == b'\r' && b == b'\n' && c == b'\r' && d == b'\n' then some (a ∷ b ∷ c ∷ d ∷ es) else rest
find_header_end _ = none

-- `memchr(p, c, n)`
unfoldable pub memchr : Bytes → ℕ → ℕ → Option Bytes
memchr p c zero = none
memchr [] c (suc n) = none
memchr (x ∷ xs) c (suc n) = let rest = memchr xs c n in if x == c then some (x ∷ xs) else rest

-- the bytes from `p` up to `q`
abbrev pub between : Bytes → Bytes → Bytes
between p q = take (length p - length q) p

-- `while (vstart < hline_end && *vstart == ' ') vstart++`, with the distance to the end
unfoldable pub skip_spaces : ℕ → Bytes → Bytes
skip_spaces zero p = p
skip_spaces (suc n) [] = []
skip_spaces (suc n) (c ∷ cs) = if c == b' ' then skip_spaces n cs else c ∷ cs

-- `c - '0'` of a signed `char`
abbrev pub digit_value : ℕ → ℤ
digit_value c =
    if leb 128 c
    then negsuc (303 - c)
    else if leb b'0' c
    then pos (c - b'0')
    else negsuc (b'0' - 1 - c)
