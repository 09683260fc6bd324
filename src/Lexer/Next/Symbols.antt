-- ===== src/Lexer/Next/Symbols.antt =====
-- The line count of src/lexer.c inside quoted symbols (`scan_symbol`).
use vek.Prelude.{ℕ, zero, suc, ◌+◌, ◌≡◌, refl, [], ◌∷◌, Bytes, arith, ap}
use vek.Lexer.{Lexer}
use vek.Lexer.Text.{newlines}
use vek.Lexer.Scan.{is_alpha, is_digit, skip_whitespace, symbol_loop, finish_symbol, scan_symbol}
use vek.Lexer.Next.{single, scan_other, scan_from, scan_token, lexer_next_token}

-- `n` escaped newlines and what follows them
unfoldable pub escaped_newlines : ℕ → Bytes → Bytes
escaped_newlines zero rest = rest
escaped_newlines (suc n) rest = b'\\' ∷ b'\n' ∷ escaped_newlines n rest

symbol_loop-escaped :
    (n : ℕ) (rest : Bytes) (line : ℕ)
    → symbol_loop (escaped_newlines n (b'"' ∷ rest)) line ≡ (b'"' ∷ rest, line)
unfolding symbol_loop escaped_newlines
symbol_loop-escaped zero [] line = refl
symbol_loop-escaped zero (c ∷ cs) line = refl
symbol_loop-escaped (suc n) rest line = symbol_loop-escaped n rest line

newlines-escaped :
    (n : ℕ) (rest : Bytes) → newlines (escaped_newlines n (b'"' ∷ rest)) ≡ n + newlines rest
unfolding escaped_newlines
newlines-escaped zero rest = refl
newlines-escaped (suc n) rest = omega (arith, newlines-escaped n rest)

scan_symbol-escaped :
    (n : ℕ) (rest s : Bytes) (line : ℕ)
    → (scan_symbol
        (record { start = s; current = b'"' ∷ escaped_newlines n (b'"' ∷ rest); line = line })).1
      ≡ record { start = s; current = rest; line = line }
unfolding scan_symbol finish_symbol
scan_symbol-escaped n rest s line = rw (symbol_loop-escaped n rest line) refl

-- the lexer before a quoted symbol with `n` escaped newlines
abbrev pub symbol_at : ℕ → Bytes → Bytes → ℕ → Lexer
symbol_at n rest s line = record {
  start = s;
  current = b':' ∷ b'"' ∷ escaped_newlines n (b'"' ∷ rest);
  line = line;
}

-- A quoted symbol with `n` escaped newlines leaves the line as it was, so that it falls `n` short of
-- the newlines that were consumed.
pub line-symbol_escaped :
    (n : ℕ) (rest s : Bytes) (line : ℕ)
    → ((lexer_next_token (symbol_at n rest s line)).1.current ≡ rest)
      × ((lexer_next_token (symbol_at n rest s line)).1.line ≡ line)
      × ((lexer_next_token (symbol_at n rest s line)).1.line + newlines rest + n
          ≡ line + newlines (symbol_at n rest s line).current)
unfolding lexer_next_token scan_token scan_from scan_other single is_alpha is_digit skip_whitespace
line-symbol_escaped n rest s line =
    let at = symbol_at n rest s line in
    let r = scan_symbol-escaped n rest at.current line in
    let same = ap (λ (l : Lexer). l.line) r in
    (ap (λ (l : Lexer). l.current) r, same, omega (arith, same, newlines-escaped n rest))
