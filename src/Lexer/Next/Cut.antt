-- ===== src/Lexer/Next/Cut.antt =====
-- One token of `lexer_next_token` (src/lexer.c), and the run of a caller up to the end of the source.
use vek.Prelude.{
  ℕ, zero, suc, ◌+◌, ◌<◌, false, ◌≡◌, ◌≢◌, ◌⊎◌, inl, inr, refl, Option, none, some, List, [], ◌∷◌,
  ◌++◌, Bytes, arith, if◌then◌else◌, length, take, Bool-cases, ◌∙◌, ◌↔◌, ap,
}
use mathlib.Core.Option
use vek.Lexer.{TokenType, Token, Lexer, error, interpolation_start, eof}
use vek.Lexer.Text.{Reaches, here, skip, length-Reaches, take-Reaches, newlines}
use vek.Lexer.Scan.{peek, advance, skip_whitespace, make_token}
use vek.Lexer.Scan.Laws.{IsText, is_eof, skip_whitespace-Reaches, newlines-skip_whitespace}
use vek.Lexer.Next.{scan_from, scan_token, lexer_next_token}
use vek.Lexer.Next.Progress.{scan_from-Scans, scan_from-Counts}

-- One call, from the position `from` past blanks and comments.
pub record IsToken (from : Bytes) (t : Token) (after : Lexer) : Type 0 where
  pub start : after.start ≡ from
  pub reaches : Reaches after.current from
  pub ends : (t.type ≡ eof) ↔ (from ≡ [])
  pub moves : (from ≡ []) ⊎ (length after.current < length from)
  pub text :
      (t.type ≡ error)
      ⊎ (t.type ≡ interpolation_start)
      ⊎ ((t.start ≡ from) × (take t.length from ++ after.current ≡ from))

not_eof→ne : (type : TokenType) → is_eof type ≡ false → type ≢ eof
not_eof→ne type h e = cc (ap is_eof e)

text_of :
    (from : Bytes) (r : Token × Lexer)
    → r.1.start ≡ from
    → Reaches r.1.current from
    → IsText r
    → (r.0.type ≡ error)
      ⊎ (r.0.type ≡ interpolation_start)
      ⊎ ((r.0.start ≡ from) × (take r.0.length from ++ r.1.current ≡ from))
text_of from r s h (inl e) = inl e
text_of from r s h (inr (inl e)) = inr (inl e)
text_of from r s h (inr (inr (p, q))) = inr (inr (p ∙ s, rw (q, s) (take-Reaches h)))

scan_token-IsToken : (p : Bytes) (line : ℕ) → IsToken p (scan_token p line).0 (scan_token p line).1
unfolding scan_token make_token
scan_token-IsToken [] line = record {
  start = refl;
  reaches = here;
  ends = (λ _. refl, λ _. refl);
  moves = inl refl;
  text = inr (inr (refl, refl));
}
scan_token-IsToken (c ∷ cs) line =
    let l : Lexer = record { start = c ∷ cs; current = cs; line = line } in
    let s = scan_from-Scans l c in
    record {
      start = s.start;
      reaches = skip s.reaches;
      ends = (λ e. absurd (not_eof→ne _ s.not_eof e), λ e. cc);
      moves = inr (omega (arith, length-Reaches s.reaches));
      text = text_of (c ∷ cs) (scan_from c l) s.start (skip s.reaches) s.text;
    }

-- Past blanks and comments, a call cuts a token off the front of the source and leaves the lexer
-- behind it. The token is the end of file exactly at the end of the source; before the end the
-- position moves. Unless the token is an error or an interpolation, its text is exactly the bytes
-- that were consumed.
pub lexer_next_token-IsToken :
    (l : Lexer) → IsToken (skip_whitespace l.current) (lexer_next_token l).0 (lexer_next_token l).1
unfolding lexer_next_token
lexer_next_token-IsToken l = scan_token-IsToken (skip_whitespace l.current) l.line

scan_token-lines :
    (p : Bytes) (line : ℕ)
    → (peek p ≡ b':' → peek (advance p) ≢ b'"')
    → (scan_token p line).1.line + newlines (scan_token p line).1.current ≡ line + newlines p
unfolding scan_token
scan_token-lines [] line h = refl
scan_token-lines (c ∷ cs) line h =
    scan_from-Counts (record { start = c ∷ cs; current = cs; line = line }) c h

-- A call raises the line by the number of newlines that it consumes, unless the token is a quoted
-- symbol.
pub line-lexer_next_token :
    (l : Lexer)
    → (peek (skip_whitespace l.current) ≡ b':' → peek (advance (skip_whitespace l.current)) ≢ b'"')
    → (lexer_next_token l).1.line + newlines (lexer_next_token l).1.current
      ≡ l.line + newlines l.current
unfolding lexer_next_token
line-lexer_next_token l h =
    scan_token-lines (skip_whitespace l.current) l.line h
    ∙ ap (λ (n : ℕ). l.line + n) (newlines-skip_whitespace l.current)

-- The caller's loop: the tokens up to the end of file, if at most `fuel` calls reach it.
unfoldable pub tokens : ℕ → Lexer → Option (List Token)
tokens zero l = none
tokens (suc fuel) l =
    let (t, l') = lexer_next_token l in
    let rest = tokens fuel l' in if is_eof t.type then some (t ∷ []) else Option.map (◌∷◌ t) rest

shorter :
    (l : Lexer)
    → is_eof (lexer_next_token l).0.type ≡ false
    → length (lexer_next_token l).1.current < length l.current
shorter l e =
    let cut = lexer_next_token-IsToken l in
    elim cut.moves [
      | inl end ↦ absurd (not_eof→ne _ e (cut.ends.1 end))
      | inr lt ↦ omega (arith, length-Reaches (skip_whitespace-Reaches l.current))
    ]

-- Reading tokens reaches the end of file within one call more than the source has bytes, whatever
-- the source is.
pub tokens_terminates :
    (fuel : ℕ) (l : Lexer) → length l.current < fuel → (ts : List Token) × (tokens fuel l ≡ some ts)
unfolding tokens
tokens_terminates zero l h = elim h [ ]
tokens_terminates (suc fuel) l h = elim (Bool-cases (is_eof (lexer_next_token l).0.type)) [
  | inl e ↦ ((lexer_next_token l).0 ∷ [], rw e)
  | inr e ↦
      let (ts, run) = tokens_terminates fuel (lexer_next_token l).1 (omega (arith, shorter l e)) in
      ((lexer_next_token l).0 ∷ ts, rw (e, run))
]
