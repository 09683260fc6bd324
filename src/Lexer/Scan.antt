-- ===== src/Lexer/Scan.antt =====
-- The scanning helpers of src/lexer.c, from `is_at_end` to `scan_symbol`.
pub mod Laws
pub mod Tokens
pub mod Strings
use Prim.Native.Char.{code}
use Prim.Native.String.{String}
use vek.Prelude.{
  ℕ, ◌+◌, ◌-◌, Bool, true, false, not, ◌&&◌, ◌||◌, List, [], ◌∷◌, Bytes, length, take, leb, ◌==◌,
  if◌then◌else◌,
}
use vek.Lexer.Keywords.{codes, identifier_type}
use vek.Lexer.{
  TokenType, colon, int, float, string, symbol, identifier, kw_fn, kw_end, kw_do, kw_if, kw_elsif,
  kw_else, kw_then, kw_while, kw_until, kw_loop, kw_for, kw_in, kw_case, kw_return, kw_break,
  kw_next, kw_true, kw_false, kw_nil, kw_and, kw_or, kw_not, kw_begin, kw_rescue, kw_raise,
  kw_unless, kw_module, kw_get, kw_post, kw_put, kw_patch, kw_delete, kw_render, kw_redirect,
  kw_halt, error, interpolation_start, Token, Lexer,
}

-- `*p` of a pointer into the source: NUL at the end.
abbrev pub peek : Bytes → ℕ
peek [] = 0
peek (c ∷ cs) = c

-- `peek_next`, which reads NUL at the end too
abbrev pub peek_next : Bytes → ℕ
peek_next [] = 0
peek_next (c ∷ cs) = peek cs

-- `current++`; the callers do not pass the end
abbrev pub advance : Bytes → Bytes
advance [] = []
advance (c ∷ cs) = cs

-- the narrowing of the length to `int` is left out: a token is shorter than 2 ^ 31 bytes
unfoldable pub make_token : Lexer → TokenType → Token
make_token lexer type = record {
  type = type;
  start = lexer.start;
  length = length lexer.start - length lexer.current;
  line = lexer.line;
}

unfoldable pub error_token : Lexer → Bytes → Token
error_token lexer message = record {
  type = error;
  start = message;
  length = length message;
  line = lexer.line;
}

-- the inner loop of `skip_whitespace`
unfoldable pub skip_comment : Bytes → Bytes
skip_comment [] = []
skip_comment (c ∷ cs) = if c == b'\n' then c ∷ cs else skip_comment cs

-- After a comment the outer loop is at a newline or at the end, where it returns.
unfoldable pub skip_whitespace : Bytes → Bytes
skip_whitespace [] = []
skip_whitespace (c ∷ cs) =
    let rest = skip_whitespace cs in
    if c == b' ' || c == b'\t' || c == b'\r'
    then rest
    else if c == b'#'
    then skip_comment (c ∷ cs)
    else c ∷ cs

unfoldable pub is_alpha : ℕ → Bool
is_alpha c = leb b'a' c && leb c b'z' || leb b'A' c && leb c b'Z' || c == b'_'

unfoldable pub is_digit : ℕ → Bool
is_digit c = leb b'0' c && leb c b'9'

-- `while (test(peek)) advance`
unfoldable pub skip_while : (ℕ → Bool) → Bytes → Bytes
skip_while test [] = []
skip_while test (c ∷ cs) = if test c then skip_while test cs else c ∷ cs

abbrev pub is_word : ℕ → Bool
is_word c = is_alpha c || is_digit c

abbrev pub is_digit_or_underscore : ℕ → Bool
is_digit_or_underscore c = is_digit c || c == b'_'

-- the end of the identifier that `scan_identifier` finds from `current`
unfoldable pub identifier_end : Bytes → Bytes
identifier_end current =
    let word_end = skip_while is_word current in
    if peek word_end == b'?' && not (peek_next word_end == b'.') && not (peek_next word_end == b':')
    then advance word_end
    else word_end

unfoldable pub scan_identifier : Lexer → Token × Lexer
scan_identifier lexer =
    let lexer' = record lexer { current = identifier_end lexer.current } in
    let type = identifier_type lexer'.start (length lexer'.start - length lexer'.current) in
    (make_token lexer' type, lexer')

-- the optional fraction: whether there is one, and where it ends
unfoldable pub scan_fraction : Bytes → Bool × Bytes
scan_fraction p =
    if peek p == b'.' && not (peek_next p == b'.') && is_digit (peek_next p)
    then (true, skip_while is_digit_or_underscore (advance p))
    else (false, p)

-- the optional sign of an exponent
abbrev pub skip_sign : Bytes → Bytes
skip_sign p = if peek p == b'+' || peek p == b'-' then advance p else p

-- what follows an `e` or `E`
unfoldable pub scan_exponent : Lexer → Bytes → Token × Lexer
scan_exponent lexer p =
    let failed = record lexer { current = skip_sign p } in
    let lexer' = record lexer { current = skip_while is_digit (skip_sign p) } in
    if not (is_digit (peek (skip_sign p)))
    then (error_token failed (codes "Invalid number: expected digit after exponent"), failed)
    else (make_token lexer' float, lexer')

unfoldable pub scan_number : Lexer → Token × Lexer
scan_number lexer =
    let (is_float, p) = scan_fraction (skip_while is_digit_or_underscore lexer.current) in
    let lexer' = record lexer { current = p } in
    if peek p == b'e' || peek p == b'E'
    then scan_exponent lexer (advance p)
    else (make_token lexer' (if is_float then float else int), lexer')

-- How the loop of `scan_string` ends, with the scan position and the line then.
pub data StringEnd : Type 0 where
  closed : Bytes → ℕ → StringEnd
  interpolated : Bytes → ℕ → StringEnd
  unterminated : ℕ → StringEnd

abbrev pub line_after : ℕ → ℕ → ℕ
line_after c line = if c == b'\n' then line + 1 else line

unfoldable pub string_loop : ℕ → Bytes → ℕ → StringEnd
string_loop quote [] line = unterminated line
string_loop quote (c ∷ []) line =
    if c == quote then closed [] (line_after c line) else unterminated (line_after c line)
string_loop quote (c ∷ d ∷ ds) line =
    let escaped = string_loop quote ds (line_after d (line_after c line)) in
    let plain = string_loop quote (d ∷ ds) (line_after c line) in
    if c == quote
    then closed (d ∷ ds) (line_after c line)
    else if c == b'\\'
    then escaped
    else if quote == b'"' && c == b'#' && d == b'{'
    then interpolated (c ∷ d ∷ ds) (line_after c line)
    else plain

-- The token of an interpolation points at its `#`, and is two bytes long.
unfoldable pub finish_string : Lexer → StringEnd → Token × Lexer
finish_string lexer (closed p line) =
    let lexer' = record lexer { current = p; line = line } in (make_token lexer' string, lexer')
finish_string lexer (interpolated p line) =
    let lexer' = record lexer { current = advance (advance p); line = line } in
    (record { type = interpolation_start; start = p; length = 2; line = line }, lexer')
finish_string lexer (unterminated line) =
    let lexer' = record lexer { current = []; line = line } in
    (error_token lexer' (codes "Unterminated string"), lexer')

unfoldable pub scan_string : Lexer → ℕ → Token × Lexer
scan_string lexer quote = finish_string lexer (string_loop quote lexer.current lexer.line)

-- The loop of a quoted symbol. A newline that a backslash escapes is not counted. `[]` is the end
-- of the source.
unfoldable pub symbol_loop : Bytes → ℕ → Bytes × ℕ
symbol_loop [] line = ([], line)
symbol_loop (c ∷ []) line =
    if c == b'"' then (c ∷ [], line) else ([], if c == b'\\' then line else line_after c line)
symbol_loop (c ∷ d ∷ ds) line =
    let escaped = symbol_loop ds line in
    let plain = symbol_loop (d ∷ ds) (line_after c line) in
    if c == b'"' then (c ∷ d ∷ ds, line) else if c == b'\\' then escaped else plain

unfoldable pub finish_symbol : Lexer → Bytes × ℕ → Token × Lexer
finish_symbol lexer ([], line) =
    let lexer' = record lexer { current = []; line = line } in
    (error_token lexer' (codes "Unterminated symbol string"), lexer')
finish_symbol lexer (c ∷ cs, line) =
    let lexer' = record lexer { current = cs; line = line } in (make_token lexer' symbol, lexer')

unfoldable pub scan_symbol : Lexer → Token × Lexer
scan_symbol lexer =
    let bare = record lexer { current = skip_while is_word lexer.current } in
    if peek lexer.current == b'"'
    then finish_symbol lexer (symbol_loop (advance lexer.current) lexer.line)
    else if is_alpha (peek lexer.current)
    then (make_token bare symbol, bare)
    else (make_token lexer colon, lexer)
