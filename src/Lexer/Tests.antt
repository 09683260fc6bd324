-- ===== src/Lexer/Tests.antt =====
-- Runs of src/lexer.c on small sources, and the theorems at such inputs.
use Prim.Native.String.{String}
use vek.Lexer.Text.{newlines}
use vek.Lexer.Next.Symbols.{symbol_at, line-symbol_escaped}
use vek.Lexer.Next.Cut.{IsToken, lexer_next_token-IsToken, line-lexer_next_token, tokens_terminates}
use vek.Lexer.Next.Words.{all_word, IsTypeOf, lexer_next_token-word}
use vek.Prelude.{bytes_eq, ℕ, ◌+◌, ◌≡◌, refl, Option, some, List, [], ◌∷◌, map, arith}
use mathlib.Core.Option
use vek.Lexer.{TokenType, Token, Lexer, lexer_init, identifier, kw_if, eof}
use vek.Lexer.Scan.{
  skip_whitespace, skip_comment, skip_while, is_alpha, is_digit, identifier_end, scan_identifier,
  make_token, error_token, scan_number, scan_fraction, scan_exponent, scan_string, string_loop,
  finish_string, scan_symbol, symbol_loop, finish_symbol,
}
use vek.Lexer.Keywords.{codes, keyword_type, identifier_type}
use vek.Lexer.Next.{
  scan_from, scan_token, lexer_next_token, single, scan_other, scan_operator, scan_dot, on_match,
}
use vek.Lexer.Next.Cut.{tokens}

-- opens the whole scanner
abbrev types : Option (List Token) → Option (List TokenType)
types = Option.map (map (λ (t : Token). t.type))

run : ℕ → String → Option (List Token)
unfolding tokens lexer_next_token scan_token scan_from single scan_other scan_operator scan_dot
    on_match skip_whitespace skip_comment skip_while is_alpha is_digit keyword_type bytes_eq
    identifier_end identifier_type scan_identifier make_token error_token scan_number scan_fraction
    scan_exponent scan_string string_loop finish_string scan_symbol symbol_loop finish_symbol
run fuel source = tokens fuel (lexer_init (codes source))

run_types :
    types (run 40 "if x?.y == 1_0.5e-3 # c\n :ok \"a#{b}\"")
    ≡ some (
        kw_if ∷ identifier ∷ TokenType.safe_nav ∷ identifier ∷ TokenType.equal_equal
        ∷ TokenType.float ∷ TokenType.newline ∷ TokenType.symbol ∷ TokenType.interpolation_start
        ∷ identifier ∷ TokenType.rbrace ∷ TokenType.error ∷ eof ∷ [])
unfolding run
run_types = refl

abbrev source : Lexer
source = lexer_init (codes "  if x")

lexer_next_token-IsToken_example :
    IsToken (skip_whitespace source.current) (lexer_next_token source).0 (lexer_next_token source).1
lexer_next_token-IsToken_example = lexer_next_token-IsToken source

-- a string over two lines
abbrev two_lines : Lexer
two_lines = lexer_init (codes "\"a\nb\" c")

line-lexer_next_token_example :
    (lexer_next_token two_lines).1.line + newlines (lexer_next_token two_lines).1.current ≡ 2
unfolding skip_whitespace
line-lexer_next_token_example = line-lexer_next_token two_lines (λ e. absurd (omega arith))

tokens_terminates_example : (ts : List Token) × (tokens 7 source ≡ some ts)
tokens_terminates_example = tokens_terminates 7 source (omega arith)

lexer_next_token-word_example :
    (type : TokenType) × (lexer_next_token (record { start = []; current = codes "if x"; line = 4 })
      ≡ (
        record { type = type; start = codes "if x"; length = 2; line = 4 },
        record { start = codes "if x"; current = codes " x"; line = 4 },
      ))
    × IsTypeOf (codes "if") type
unfolding is_alpha is_digit all_word
lexer_next_token-word_example =
    lexer_next_token-word b'i' (codes "f") (codes " x") [] 4 refl refl
      (record { no_word = refl; no_question = λ e. absurd (omega arith) })

line-symbol_escaped_example :
    ((lexer_next_token (symbol_at 2 (codes " y") [] 7)).1.current ≡ codes " y")
    × ((lexer_next_token (symbol_at 2 (codes " y") [] 7)).1.line ≡ 7)
    × ((lexer_next_token (symbol_at 2 (codes " y") [] 7)).1.line + newlines (codes " y") + 2
        ≡ 7 + newlines (symbol_at 2 (codes " y") [] 7).current)
line-symbol_escaped_example = line-symbol_escaped 2 (codes " y") [] 7
