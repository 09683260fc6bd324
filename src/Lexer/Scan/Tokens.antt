-- ===== src/Lexer/Scan/Tokens.antt =====
-- Every scan of src/lexer.c moves forward and cuts its token out of the source; all but the scan of a
-- quoted symbol count the newlines that they pass.
use vek.Prelude.{
  take, List, [], ◌∷◌, ◌&&◌, ℕ, Bool, true, false, ◌≡◌, inl, inr, refl, [], ◌∷◌, Bytes, arith, ◌==◌,
  if◌then◌else◌, not, ◌||◌, ◌∙◌, take,
}
use vek.Lexer.{TokenType, float, int, Token, Lexer}
use vek.Lexer.Text.{Reaches, Reaches-trans, newlines}
use vek.Lexer.Scan.{
  peek, advance, make_token, error_token, skip_while, scan_identifier, scan_fraction, scan_exponent,
  scan_number, skip_sign, is_digit_or_underscore, is_digit,
}
use vek.Lexer.Keywords.{keywords, keyword_type, identifier_type}
use vek.Lexer.Scan.Laws.{
  is_eof, Scans, Counts, advance-Reaches, skip_while-Reaches, newlines-skip_while, newlines-advance,
  identifier_end-Reaches, newlines-identifier_end, scan_fraction-Reaches, newlines-scan_fraction,
  skip_sign-Reaches, newlines-skip_sign, digit_test, underscore_test,
}

pub Scans-if :
    (b : Bool) {l : Lexer} {r r' : Token × Lexer}
    → Scans l r
    → Scans l r'
    → Scans l (if b then r else r')
Scans-if true h k = h
Scans-if false h k = k

-- a token of the text up to `p`
pub make_token-Scans :
    (l : Lexer) (p : Bytes) (line : ℕ) (type : TokenType)
    → is_eof type ≡ false
    → Reaches p l.current
    → Scans l (
      make_token (record l { current = p; line = line }) type,
      record l { current = p; line = line },
    )
unfolding make_token
make_token-Scans l p line type n h = record {
  start = refl;
  reaches = h;
  text = inr (inr (refl, refl));
  not_eof = n;
}

pub error_token-Scans :
    (l : Lexer) (p : Bytes) (line : ℕ) (message : Bytes)
    → Reaches p l.current
    → Scans l (
      error_token (record l { current = p; line = line }) message,
      record l { current = p; line = line },
    )
unfolding error_token
error_token-Scans l p line message h = record {
  start = refl;
  reaches = h;
  text = inl refl;
  not_eof = refl;
}

no_eof : List (Bytes × TokenType) → Bool
no_eof [] = true
no_eof ((name, type) ∷ rest) = not (is_eof type) && no_eof rest

keyword_type-not_eof :
    (table : List (Bytes × TokenType)) (word : Bytes)
    → no_eof table ≡ true
    → is_eof (keyword_type table word) ≡ false
unfolding keyword_type no_eof
keyword_type-not_eof [] word h = refl
keyword_type-not_eof ((name, type) ∷ rest) word h = ground (arith, keyword_type-not_eof rest word)

identifier_type-not_eof : (start : Bytes) (n : ℕ) → is_eof (identifier_type start n) ≡ false
unfolding identifier_type no_eof
identifier_type-not_eof start n = keyword_type-not_eof keywords (take n start) refl

is_eof-number : (b : Bool) → is_eof (if b then float else int) ≡ false
is_eof-number true = refl
is_eof-number false = refl

module _ (l : Lexer) where
  pub scan_identifier-Scans : Scans l (scan_identifier l)
  unfolding scan_identifier
  scan_identifier-Scans =
      make_token-Scans l _ _ _ (identifier_type-not_eof _ _) (identifier_end-Reaches l.current)

  pub scan_identifier-Counts : Counts l (scan_identifier l)
  unfolding scan_identifier
  scan_identifier-Counts = omega (arith, newlines-identifier_end l.current)

module _ (l : Lexer) (p : Bytes) where
  scan_exponent-Scans : Reaches p l.current → Scans l (scan_exponent l p)
  unfolding scan_exponent
  scan_exponent-Scans h =
      let sign = Reaches-trans (skip_sign-Reaches p) h in
      Scans-if (not (is_digit (peek (skip_sign p)))) (error_token-Scans l _ l.line _ sign) (
        make_token-Scans l _ l.line float refl (Reaches-trans (skip_while-Reaches is_digit _) sign))

  scan_exponent-Counts : newlines p ≡ newlines l.current → Counts l (scan_exponent l p)
  unfolding scan_exponent
  scan_exponent-Counts h =
      ground (arith, newlines-skip_while is_digit (skip_sign p) digit_test, newlines-skip_sign p)

number_end : Bytes → Bytes
number_end s = (scan_fraction (skip_while is_digit_or_underscore s)).1

number_end-Reaches : (s : Bytes) → Reaches (number_end s) s
unfolding number_end
number_end-Reaches s =
    Reaches-trans (scan_fraction-Reaches _) (skip_while-Reaches is_digit_or_underscore s)

newlines-number_end : (s : Bytes) → newlines (number_end s) ≡ newlines s
unfolding number_end
newlines-number_end s =
    newlines-scan_fraction _ ∙ newlines-skip_while is_digit_or_underscore s underscore_test

module _ (l : Lexer) where
  pub scan_number-Scans : Scans l (scan_number l)
  unfolding scan_number number_end
  scan_number-Scans =
      Scans-if (peek (number_end l.current) == b'e' || peek (number_end l.current) == b'E')
        (scan_exponent-Scans l _ (Reaches-trans (advance-Reaches _) (number_end-Reaches l.current)))
        (make_token-Scans l _ l.line _ (is_eof-number _) (number_end-Reaches l.current))

  pub scan_number-Counts : Counts l (scan_number l)
  unfolding scan_number number_end
  scan_number-Counts = ground (
    arith,
    newlines-number_end l.current,
    newlines-advance (number_end l.current),
    scan_exponent-Counts l (advance (number_end l.current)),
  )
