-- ===== src/Lexer/Next/Progress.antt =====
-- What one call of `lexer_next_token` (src/lexer.c) does to the position and the line.
use vek.Prelude.{
  ℕ, ◌+◌, Bool, true, false, ◌≡◌, ◌≢◌, inr, refl, Option, none, some, arith, ◌==◌, if◌then◌else◌,
}
use vek.Lexer.{TokenType, Token, Lexer}
use vek.Lexer.Text.{here, Reaches-trans, newlines}
use vek.Lexer.Scan.{peek, advance, make_token, is_alpha, is_digit, scan_string}
use vek.Lexer.Scan.Laws.{is_eof, Scans, Counts, advance-Reaches, newlines-advance}
use vek.Lexer.Scan.Tokens.{
  Scans-if, make_token-Scans, error_token-Scans, scan_identifier-Scans, scan_identifier-Counts,
  scan_number-Scans, scan_number-Counts,
}
use vek.Lexer.Scan.Strings.{
  scan_string-Scans, scan_string-Counts, scan_symbol-Scans, scan_symbol-Counts,
}
use vek.Lexer.Next.{emit, on_match, scan_dot, scan_operator, scan_other, scan_from, single}

-- A scan that moves forward and counts its newlines.
record Steps (l : Lexer) (r : Token × Lexer) : Type 0 where
  scans : Scans l r
  counts : Counts l r

Steps-if :
    (b : Bool) {l : Lexer} {r r' : Token × Lexer}
    → Steps l r
    → Steps l r'
    → Steps l (if b then r else r')
Steps-if true h k = h
Steps-if false h k = k

single-not_eof : (c : ℕ) (type : TokenType) → single c ≡ some type → is_eof type ≡ false
unfolding single
single-not_eof c type h = ground arith

module _ (l : Lexer) where
  emit-Steps : (type : TokenType) → is_eof type ≡ false → Steps l (emit l type)
  emit-Steps type h = record {
    scans = make_token-Scans l l.current l.line type h here;
    counts = refl;
  }

  on_match-Steps :
      (c : ℕ) (type : TokenType) {other : Token × Lexer}
      → c ≢ b'\n'
      → is_eof type ≡ false
      → Steps l other
      → Steps l (on_match c type l other)
  unfolding on_match
  on_match-Steps c type h n k = record {
    scans =
        Scans-if (peek l.current == c)
          (make_token-Scans l _ l.line type n (advance-Reaches l.current)) k.scans;
    counts = ground (arith, newlines-advance l.current);
  }

  scan_dot-Steps : Steps l (scan_dot l)
  unfolding scan_dot on_match
  scan_dot-Steps = record {
    scans =
        Scans-if (peek l.current == b'.')
          (Scans-if (peek (advance l.current) == b'.')
            (make_token-Scans l _ l.line TokenType.dot_dot_dot refl
              (Reaches-trans (advance-Reaches (advance l.current)) (advance-Reaches l.current)))
            (make_token-Scans l _ l.line TokenType.dot_dot refl (advance-Reaches l.current)))
          (emit-Steps TokenType.dot refl).scans;
    counts = ground (arith, newlines-advance l.current, newlines-advance (advance l.current));
  }

  scan_operator-Steps : (c : ℕ) → Steps l (scan_operator c l)
  unfolding scan_operator
  scan_operator-Steps c =
      Steps-if (c == b'+') (on_match-Steps b'=' _ (omega arith) refl (emit-Steps _ refl)) (
        Steps-if (c == b'-')
          (on_match-Steps b'>' _ (omega arith) refl
            (on_match-Steps b'=' _ (omega arith) refl (emit-Steps _ refl)))
          (Steps-if (c == b'*')
            (on_match-Steps b'*' _ (omega arith) refl
              (on_match-Steps b'=' _ (omega arith) refl (emit-Steps _ refl)))
            (Steps-if (c == b'/') (on_match-Steps b'=' _ (omega arith) refl (emit-Steps _ refl)) (
              Steps-if (c == b'<')
                (on_match-Steps b'<' _ (omega arith) refl
                  (on_match-Steps b'=' _ (omega arith) refl (emit-Steps _ refl)))
                (Steps-if (c == b'>')
                  (on_match-Steps b'>' _ (omega arith) refl
                    (on_match-Steps b'=' _ (omega arith) refl (emit-Steps _ refl)))
                  (Steps-if (c == b'=')
                    (on_match-Steps b'=' _ (omega arith) refl
                      (on_match-Steps b'>' _ (omega arith) refl (emit-Steps _ refl)))
                    (Steps-if (c == b'!')
                      (on_match-Steps b'=' _ (omega arith) refl (emit-Steps _ refl))
                      (Steps-if (c == b'&')
                        (on_match-Steps b'&' _ (omega arith) refl (emit-Steps _ refl))
                        (Steps-if (c == b'|')
                          (on_match-Steps b'|' _ (omega arith) refl (emit-Steps _ refl))
                          (Steps-if (c == b'?')
                            (on_match-Steps b'.' _ (omega arith) refl
                              (on_match-Steps b':' _ (omega arith) refl (emit-Steps _ refl)))
                            (record {
                              scans = error_token-Scans l l.current l.line _ here;
                              counts = refl;
                            })))))))))))

  scan_string-Steps : (quote : ℕ) → quote ≢ b'\n' → Steps l (scan_string l quote)
  scan_string-Steps quote h = record {
    scans = scan_string-Scans l quote;
    counts = scan_string-Counts l quote h;
  }

  -- from `"` on
  scan_rest-Steps :
      (c : ℕ)
      → Steps l (
          if c == b'"'
          then scan_string l b'"'
          else if c == b'\''
          then scan_string l b'\''
          else scan_operator c l)
  scan_rest-Steps c =
      Steps-if (c == b'"') (scan_string-Steps b'"' (omega arith))
        (Steps-if (c == b'\'') (scan_string-Steps b'\'' (omega arith)) (scan_operator-Steps c))

  scan_other-Scans : (c : ℕ) → Scans l (scan_other c l)
  unfolding scan_other make_token
  scan_other-Scans c =
      Scans-if (c == b'\n')
        (record { start = refl; reaches = here; text = inr (inr (refl, refl)); not_eof = refl })
        (Scans-if (c == b':') (scan_symbol-Scans l)
          (Scans-if (c == b'.') scan_dot-Steps.scans (scan_rest-Steps c).scans))

  single-Scans :
      (c : ℕ) (o : Option TokenType)
      → ((type : TokenType) → o ≡ some type → is_eof type ≡ false)
      → Scans l (elim o [ some type ↦ emit l type | none ↦ scan_other c l ])
  single-Scans c none h = scan_other-Scans c
  single-Scans c (some type) h = (emit-Steps type (h type refl)).scans

  pub scan_from-Scans : (c : ℕ) → Scans l (scan_from c l)
  unfolding scan_from
  scan_from-Scans c =
      Scans-if (is_alpha c) (scan_identifier-Scans l)
        (Scans-if (is_digit c) (scan_number-Scans l) (single-Scans c (single c) (single-not_eof c)))

  -- the newlines from the byte `c`, already read, on
  abbrev CountsFrom : ℕ → Token × Lexer → Type 0
  CountsFrom c r =
      r.1.line + newlines r.1.current
      ≡ l.line + ((if c == b'\n' then 1 else 0) + newlines l.current)

  scan_other-Counts : (c : ℕ) → (c ≡ b':' → peek l.current ≢ b'"') → CountsFrom c (scan_other c l)
  unfolding scan_other
  scan_other-Counts c h =
      ground (arith, scan_symbol-Counts l, scan_dot-Steps.counts, (scan_rest-Steps c).counts)

  single-Counts :
      (c : ℕ) (o : Option TokenType)
      → (o ≢ none → c ≢ b'\n')
      → (c ≡ b':' → peek l.current ≢ b'"')
      → CountsFrom c (elim o [ some type ↦ emit l type | none ↦ scan_other c l ])
  single-Counts c none h k = scan_other-Counts c k
  single-Counts c (some type) h k = ground (arith, h (λ e. cc))

single_newline : (c : ℕ) → single c ≢ none → c ≢ b'\n'
unfolding single
single_newline c h = ground arith

-- The line and the newlines that are left keep their sum, unless the byte starts a quoted symbol.
pub scan_from-Counts :
    (l : Lexer) (c : ℕ) → (c ≡ b':' → peek l.current ≢ b'"') → CountsFrom l c (scan_from c l)
unfolding scan_from is_alpha is_digit
scan_from-Counts l c h = ground (
  arith,
  scan_identifier-Counts l,
  scan_number-Counts l,
  single-Counts l c (single c) (single_newline c) h,
)
