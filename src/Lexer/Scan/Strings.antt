-- ===== src/Lexer/Scan/Strings.antt =====
-- The scans of string and symbol literals in src/lexer.c.
use vek.Prelude.{
  ℕ, ◌+◌, ◌≤◌, Bool, true, false, ◌≡◌, ◌≢◌, inl, inr, refl, [], ◌∷◌, Bytes, arith, ◌==◌, ◌&&◌,
  if◌then◌else◌,
}
use vek.Lexer.{Lexer, string, symbol, colon}
use vek.Lexer.Text.{Reaches, here, skip, Reaches-trans, newlines}
use vek.Lexer.Scan.{
  peek, advance, line_after, StringEnd, closed, interpolated, unterminated, string_loop,
  finish_string, scan_string, symbol_loop, finish_symbol, scan_symbol, is_word, is_alpha,
}
use vek.Lexer.Scan.Laws.{
  Scans, Counts, advance-Reaches, skip_while-Reaches, newlines-skip_while, newlines-advance,
  word_test,
}
use vek.Lexer.Scan.Tokens.{Scans-if, make_token-Scans, error_token-Scans}

-- the position after the literal, as it is left in `current`
abbrev end_position : StringEnd → Bytes
end_position (closed p line) = p
end_position (interpolated p line) = advance (advance p)
end_position (unterminated line) = []

abbrev end_line : StringEnd → ℕ
end_line (closed p line) = line
end_line (interpolated p line) = line
end_line (unterminated line) = line

end_position-if :
    (b : Bool) (e e' : StringEnd) {s : Bytes}
    → Reaches (end_position e) s
    → Reaches (end_position e') s
    → Reaches (end_position (if b then e else e')) s
end_position-if true e e' h k = h
end_position-if false e e' h k = k

string_loop-Reaches :
    (quote : ℕ) (s : Bytes) (line : ℕ) → Reaches (end_position (string_loop quote s line)) s
unfolding string_loop
string_loop-Reaches quote [] line = here
string_loop-Reaches quote (c ∷ []) line = end_position-if (c == quote) _ _ (skip here) (skip here)
string_loop-Reaches quote (c ∷ d ∷ ds) line = end_position-if (c == quote) _ _ (skip here) (
    end_position-if (c == b'\\') _ _ (skip (skip (string_loop-Reaches quote ds _))) (
      end_position-if (quote == b'"' && c == b'#' && d == b'{') _ _ (skip (skip here))
        (skip (string_loop-Reaches quote (d ∷ ds) _))))

-- The quote is no newline, so every newline that is passed was counted.
string_loop-Counts :
    (quote : ℕ) (s : Bytes) (line : ℕ)
    → quote ≢ b'\n'
    → end_line (string_loop quote s line) + newlines (end_position (string_loop quote s line))
      ≡ line + newlines s
unfolding string_loop
string_loop-Counts quote [] line h = refl
string_loop-Counts quote (c ∷ []) line h = ground arith
string_loop-Counts quote (c ∷ d ∷ ds) line h = ground (
  arith,
  string_loop-Counts quote ds (line_after d (line_after c line)) h,
  string_loop-Counts quote (d ∷ ds) (line_after c line) h,
)

module _ (l : Lexer) where
  finish_string-Scans :
      (e : StringEnd) → Reaches (end_position e) l.current → Scans l (finish_string l e)
  unfolding finish_string
  finish_string-Scans (closed p line) h = make_token-Scans l p line string refl h
  finish_string-Scans (interpolated p line) h = record {
    start = refl;
    reaches = h;
    text = inr (inl refl);
    not_eof = refl;
  }
  finish_string-Scans (unterminated line) h = error_token-Scans l [] line _ h

  finish_string-Counts :
      (e : StringEnd)
      → end_line e + newlines (end_position e) ≡ l.line + newlines l.current
      → Counts l (finish_string l e)
  unfolding finish_string
  finish_string-Counts (closed p line) h = h
  finish_string-Counts (interpolated p line) h = h
  finish_string-Counts (unterminated line) h = h

  pub scan_string-Scans : (quote : ℕ) → Scans l (scan_string l quote)
  unfolding scan_string
  scan_string-Scans quote = finish_string-Scans _ (string_loop-Reaches quote l.current l.line)

  pub scan_string-Counts : (quote : ℕ) → quote ≢ b'\n' → Counts l (scan_string l quote)
  unfolding scan_string
  scan_string-Counts quote h = finish_string-Counts _ (string_loop-Counts quote l.current l.line h)

symbol_if :
    (b : Bool) (x y : Bytes × ℕ) {s : Bytes}
    → Reaches x.0 s
    → Reaches y.0 s
    → Reaches (if b then x else y).0 s
symbol_if true x y h k = h
symbol_if false x y h k = k

symbol_loop-Reaches : (s : Bytes) (line : ℕ) → Reaches (symbol_loop s line).0 s
unfolding symbol_loop
symbol_loop-Reaches [] line = here
symbol_loop-Reaches (c ∷ []) line = symbol_if (c == b'"') _ _ here (skip here)
symbol_loop-Reaches (c ∷ d ∷ ds) line = symbol_if (c == b'"') _ _ here (
    symbol_if (c == b'\\') _ _ (skip (skip (symbol_loop-Reaches ds line)))
      (skip (symbol_loop-Reaches (d ∷ ds) _)))

-- Escaped newlines are missed, and no line is counted twice.
symbol_loop-le :
    (s : Bytes) (line : ℕ)
    → (symbol_loop s line).1 + newlines (symbol_loop s line).0 ≤ line + newlines s
unfolding symbol_loop
symbol_loop-le [] line = omega arith
symbol_loop-le (c ∷ []) line = ground arith
symbol_loop-le (c ∷ d ∷ ds) line =
    ground (arith, symbol_loop-le ds line, symbol_loop-le (d ∷ ds) (line_after c line))

module _ (l : Lexer) where
  finish_symbol-Scans : (e : Bytes × ℕ) → Reaches e.0 l.current → Scans l (finish_symbol l e)
  unfolding finish_symbol
  finish_symbol-Scans ([], line) h = error_token-Scans l [] line _ h
  finish_symbol-Scans (c ∷ cs, line) h =
      make_token-Scans l cs line symbol refl (Reaches-trans (skip here) h)

  pub scan_symbol-Scans : Scans l (scan_symbol l)
  unfolding scan_symbol
  scan_symbol-Scans =
      Scans-if (peek l.current == b'"')
        (finish_symbol-Scans _
          (Reaches-trans (symbol_loop-Reaches _ l.line) (advance-Reaches l.current)))
        (Scans-if (is_alpha (peek l.current))
          (make_token-Scans l _ l.line symbol refl (skip_while-Reaches is_word l.current))
          (make_token-Scans l l.current l.line colon refl here))

  -- A symbol without quotes, or a colon, has its lines right.
  pub scan_symbol-Counts : peek l.current ≢ b'"' → Counts l (scan_symbol l)
  unfolding scan_symbol
  scan_symbol-Counts h = ground (arith, newlines-skip_while is_word l.current word_test)

  finish_symbol-le :
      (e : Bytes × ℕ)
      → e.1 + newlines e.0 ≤ l.line + newlines l.current
      → (finish_symbol l e).1.line + newlines (finish_symbol l e).1.current
        ≤ l.line + newlines l.current
  unfolding finish_symbol
  finish_symbol-le ([], line) h = h
  finish_symbol-le (c ∷ cs, line) h = ground arith

  pub scan_symbol-le :
      (scan_symbol l).1.line + newlines (scan_symbol l).1.current ≤ l.line + newlines l.current
  unfolding scan_symbol
  scan_symbol-le = ground (
    arith,
    newlines-skip_while is_word l.current word_test,
    finish_symbol-le (symbol_loop (advance l.current) l.line),
    symbol_loop-le (advance l.current) l.line,
    newlines-advance l.current,
  )
