-- ===== src/Lexer/Scan/Laws.antt =====
-- Where the scanning helpers of src/lexer.c stop, and what their tokens point at.
use vek.Prelude.{
  ℕ, ◌+◌, ◌-◌, Bool, true, false, ◌≡◌, ◌≢◌, ◌⊎◌, refl, [], ◌∷◌, Bytes, length, arith, ◌==◌,
  if◌then◌else◌,
}
use vek.Lexer.{TokenType, Token, Lexer, TokenType, eof, error, interpolation_start}
use vek.Lexer.Text.{Reaches, here, skip, Reaches-trans, newlines}
use vek.Lexer.Scan.{
  peek, advance, skip_comment, skip_whitespace, skip_while, identifier_end, scan_fraction,
  skip_sign, is_digit_or_underscore, is_word, is_digit, is_alpha,
}

-- The token's bytes are those from `start` to `current`, unless it is an error or an
-- interpolation.
abbrev pub IsText : Token × Lexer → Type 0
IsText (t, l) =
    (t.type ≡ error)
    ⊎ (t.type ≡ interpolation_start)
    ⊎ ((t.start ≡ l.start) × (t.length ≡ length l.start - length l.current))

abbrev pub is_eof : TokenType → Bool
is_eof eof = true
is_eof _ = false

-- A scan from `l` moves `current` forward only, and leaves `start`.
pub record Scans (l : Lexer) (r : Token × Lexer) : Type 0 where
  pub start : r.1.start ≡ l.start
  pub reaches : Reaches r.1.current l.current
  pub text : IsText r
  pub not_eof : is_eof r.0.type ≡ false

-- It counts the newlines that it passes.
abbrev pub Counts : Lexer → Token × Lexer → Type 0
Counts l r = r.1.line + newlines r.1.current ≡ l.line + newlines l.current

pub Reaches-if :
    (b : Bool) {p q s : Bytes} → Reaches p s → Reaches q s → Reaches (if b then p else q) s
Reaches-if true h k = h
Reaches-if false h k = k

Reaches-if_pair {ℓ} :
    {A : Type ℓ} (b : Bool) (x y : A × Bytes) {s : Bytes}
    → Reaches x.1 s
    → Reaches y.1 s
    → Reaches (if b then x else y).1 s
Reaches-if_pair true x y h k = h
Reaches-if_pair false x y h k = k

pub advance-Reaches : (s : Bytes) → Reaches (advance s) s
advance-Reaches [] = here
advance-Reaches (c ∷ cs) = skip here

pub skip_while-Reaches : (test : ℕ → Bool) (s : Bytes) → Reaches (skip_while test s) s
unfolding skip_while
skip_while-Reaches test [] = here
skip_while-Reaches test (c ∷ cs) = Reaches-if (test c) (skip (skip_while-Reaches test cs)) here

pub skip_comment-Reaches : (s : Bytes) → Reaches (skip_comment s) s
unfolding skip_comment
skip_comment-Reaches [] = here
skip_comment-Reaches (c ∷ cs) = Reaches-if (c == b'\n') here (skip (skip_comment-Reaches cs))

pub skip_whitespace-Reaches : (s : Bytes) → Reaches (skip_whitespace s) s
unfolding skip_whitespace
skip_whitespace-Reaches [] = here
skip_whitespace-Reaches (c ∷ cs) =
    Reaches-if _ (skip (skip_whitespace-Reaches cs))
      (Reaches-if (c == b'#') (skip_comment-Reaches (c ∷ cs)) here)

-- Neither a blank nor a comment holds a newline.
pub newlines-skip_comment : (s : Bytes) → newlines (skip_comment s) ≡ newlines s
unfolding skip_comment
newlines-skip_comment [] = refl
newlines-skip_comment (c ∷ cs) = ground (arith, newlines-skip_comment cs)

pub newlines-skip_whitespace : (s : Bytes) → newlines (skip_whitespace s) ≡ newlines s
unfolding skip_whitespace
newlines-skip_whitespace [] = refl
newlines-skip_whitespace (c ∷ cs) =
    ground (arith, newlines-skip_whitespace cs, newlines-skip_comment (c ∷ cs))

-- a loop that passes no newline
pub newlines-skip_while :
    (test : ℕ → Bool) (s : Bytes) → test b'\n' ≡ false → newlines (skip_while test s) ≡ newlines s
unfolding skip_while
newlines-skip_while test [] h = refl
newlines-skip_while test (c ∷ cs) h = ground (arith, newlines-skip_while test cs h)

pub newlines-advance : (s : Bytes) → peek s ≢ b'\n' → newlines (advance s) ≡ newlines s
newlines-advance [] h = refl
newlines-advance (c ∷ cs) h = ground arith

-- digits and word characters are no newlines
pub digit_test : is_digit b'\n' ≡ false
unfolding is_digit
digit_test = refl

pub underscore_test : is_digit_or_underscore b'\n' ≡ false
unfolding is_digit
underscore_test = refl

pub word_test : is_word b'\n' ≡ false
unfolding is_alpha is_digit
word_test = refl

module _ (s : Bytes) where
  pub identifier_end-Reaches : Reaches (identifier_end s) s
  unfolding identifier_end
  identifier_end-Reaches =
      let word = skip_while-Reaches is_word s in
      Reaches-if _ (Reaches-trans (advance-Reaches (skip_while is_word s)) word) word

  pub newlines-identifier_end : newlines (identifier_end s) ≡ newlines s
  unfolding identifier_end
  newlines-identifier_end =
      ground
        (arith, newlines-skip_while is_word s word_test, newlines-advance (skip_while is_word s))

  pub scan_fraction-Reaches : Reaches (scan_fraction s).1 s
  unfolding scan_fraction
  scan_fraction-Reaches =
      Reaches-if_pair _ _ _
        (Reaches-trans (skip_while-Reaches is_digit_or_underscore (advance s)) (advance-Reaches s))
        here

  pub newlines-scan_fraction : newlines (scan_fraction s).1 ≡ newlines s
  unfolding scan_fraction
  newlines-scan_fraction = ground (
    arith,
    newlines-skip_while is_digit_or_underscore (advance s) underscore_test,
    newlines-advance s,
  )

  pub skip_sign-Reaches : Reaches (skip_sign s) s
  skip_sign-Reaches = Reaches-if _ (advance-Reaches s) here

  pub newlines-skip_sign : newlines (skip_sign s) ≡ newlines s
  newlines-skip_sign = ground (arith, newlines-advance s)
