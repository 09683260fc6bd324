-- ===== src/Lexer/Next.antt =====
-- `lexer_next_token` of src/lexer.c, and the loop of a caller that reads tokens up to the end.
pub mod Progress
pub mod Cut
pub mod Words
pub mod Symbols
use vek.Prelude.{
  ℕ, zero, suc, ◌+◌, Bool, Option, none, some, List, [], ◌∷◌, Bytes, ◌==◌, if◌then◌else◌,
}
use vek.Lexer.{TokenType, eof, error, newline, Token, Lexer}
use vek.Lexer.Scan.{
  make_token, error_token, skip_whitespace, is_alpha, is_digit, scan_identifier, scan_number,
  scan_string, scan_symbol, peek, advance,
}
use vek.Lexer.Keywords.{codes}

abbrev pub emit : Lexer → TokenType → Token × Lexer
emit lexer type = (make_token lexer type, lexer)

-- `if (match(lexer, c)) return make_token(lexer, type);` and otherwise the rest
unfoldable pub on_match : ℕ → TokenType → Lexer → Token × Lexer → Token × Lexer
on_match c type lexer other =
    if peek lexer.current == c
    then emit (record lexer { current = advance lexer.current }) type
    else other

-- case '.'
unfoldable pub scan_dot : Lexer → Token × Lexer
scan_dot lexer =
    if peek lexer.current == b'.'
    then (let two = record lexer { current = advance lexer.current } in
        on_match b'.' TokenType.dot_dot_dot two (emit two TokenType.dot_dot))
    else emit lexer TokenType.dot

-- the operators of one or two characters
unfoldable pub scan_operator : ℕ → Lexer → Token × Lexer
scan_operator c l =
    if c == b'+'
    then on_match b'=' TokenType.plus_equal l (emit l TokenType.plus)
    else if c == b'-'
    then on_match b'>' TokenType.arrow l
        (on_match b'=' TokenType.minus_equal l (emit l TokenType.minus))
    else if c == b'*'
    then on_match b'*' TokenType.star_star l
        (on_match b'=' TokenType.star_equal l (emit l TokenType.star))
    else if c == b'/'
    then on_match b'=' TokenType.slash_equal l (emit l TokenType.slash)
    else if c == b'<'
    then on_match b'<' TokenType.lshift l
        (on_match b'=' TokenType.less_equal l (emit l TokenType.less))
    else if c == b'>'
    then on_match b'>' TokenType.rshift l
        (on_match b'=' TokenType.greater_equal l (emit l TokenType.greater))
    else if c == b'='
    then on_match b'=' TokenType.equal_equal l
        (on_match b'>' TokenType.fat_arrow l (emit l TokenType.equal))
    else if c == b'!'
    then on_match b'=' TokenType.bang_equal l (emit l TokenType.bang)
    else if c == b'&'
    then on_match b'&' TokenType.amp_amp l (emit l TokenType.amp)
    else if c == b'|'
    then on_match b'|' TokenType.pipe_pipe l (emit l TokenType.pipe)
    else if c == b'?'
    then on_match b'.' TokenType.safe_nav l
        (on_match b':' TokenType.ternary l (emit l TokenType.question))
    else (error_token l (codes "Unexpected character"), l)

-- the single-character tokens
unfoldable pub single : ℕ → Option TokenType
single c =
    if c == b'('
    then some TokenType.lparen
    else if c == b')'
    then some TokenType.rparen
    else if c == b'['
    then some TokenType.lbracket
    else if c == b']'
    then some TokenType.rbracket
    else if c == b'{'
    then some TokenType.lbrace
    else if c == b'}'
    then some TokenType.rbrace
    else if c == b','
    then some TokenType.comma
    else if c == b';'
    then some TokenType.semicolon
    else if c == b'~'
    then some TokenType.tilde
    else if c == b'@'
    then some TokenType.at
    else if c == b'%'
    then some TokenType.percent
    else if c == b'^'
    then some TokenType.caret
    else none

-- the cases with a loop, and the operators
unfoldable pub scan_other : ℕ → Lexer → Token × Lexer
scan_other c lexer =
    if c == b'\n'
    then (make_token lexer newline, record lexer { line = lexer.line + 1 })
    else if c == b':'
    then scan_symbol lexer
    else if c == b'.'
    then scan_dot lexer
    else if c == b'"'
    then scan_string lexer b'"'
    else if c == b'\''
    then scan_string lexer b'\''
    else scan_operator c lexer

-- `c` is the byte just read
unfoldable pub scan_from : ℕ → Lexer → Token × Lexer
scan_from c lexer =
    if is_alpha c
    then scan_identifier lexer
    else if is_digit c
    then scan_number lexer
    else elim (single c) [ some type ↦ emit lexer type | none ↦ scan_other c lexer ]

-- the body after `skip_whitespace`; `p` is where it stopped
unfoldable pub scan_token : Bytes → ℕ → Token × Lexer
scan_token [] line = emit (record { start = []; current = []; line = line }) eof
scan_token (c ∷ cs) line = scan_from c (record { start = c ∷ cs; current = cs; line = line })

unfoldable pub lexer_next_token : Lexer → Token × Lexer
lexer_next_token lexer = scan_token (skip_whitespace lexer.current) lexer.line
