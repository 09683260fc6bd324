-- ===== src/Lexer.antt =====
-- The tokens of lexer.h, and the state of lexer.c. A `const char*` into the NUL-terminated source is
-- the list of the bytes from it up to the NUL; at the end of the list it reads NUL.
pub mod Text
mod Tests
pub mod Keywords
pub mod Scan
pub mod Next
use vek.Prelude.{ℕ, Bytes}

pub data TokenType : Type 0 where
  lparen rparen lbracket rbracket lbrace rbrace : TokenType
  comma dot semicolon colon plus minus star slash percent : TokenType
  amp pipe caret tilde less greater equal bang at question : TokenType
  equal_equal bang_equal less_equal greater_equal amp_amp pipe_pipe : TokenType
  dot_dot dot_dot_dot arrow fat_arrow safe_nav ternary lshift rshift : TokenType
  plus_equal minus_equal star_equal slash_equal star_star : TokenType
  int float string symbol identifier : TokenType
  kw_fn kw_end kw_do kw_if kw_elsif kw_else kw_then kw_while kw_until kw_loop kw_for : TokenType
  kw_in kw_case kw_return kw_break kw_next kw_true kw_false kw_nil kw_and kw_or kw_not : TokenType
  kw_begin kw_rescue kw_raise kw_unless kw_module : TokenType
  kw_get kw_post kw_put kw_patch kw_delete kw_render kw_redirect kw_halt : TokenType
  eof error newline interpolation_start : TokenType

-- `start` points into the source, or at the static text of an error message.
pub record Token : Type 0 where
  pub type : TokenType
  pub start : Bytes
  pub length : ℕ
  pub line : ℕ

pub record Lexer : Type 0 where
  pub start : Bytes
  pub current : Bytes
  pub line : ℕ

-- `lexer_init`
abbrev pub lexer_init : Bytes → Lexer
lexer_init source = record { start = source; current = source; line = 1 }
