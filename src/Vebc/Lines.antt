-- ===== src/Vebc/Lines.antt =====
-- The line table: what `vebc_builder_add_function` makes of the lines, `vebc_to_function` makes lines of.
use vek.Prelude.{
  ℕ, suc, ◌<◌, ◌≡◌, refl, ap, ap₂, ◌∙◌, inl, inr, Bool-cases, true, false, Option, none, some, List,
  [], ◌∷◌, length, leb, arith,
}
use vek.Vebc.{VebcLineEntry}
use vek.Vebc.Functions.{changes, line_entries_of}
use vek.Vebc.Entry.{advance, fill_lines}

-- entries behind the offset are not passed
advance-later :
    (i j c : ℕ) (pl : Option ℕ) (lines : List ℕ)
    → i < j
    → advance i (line_entries_of pl j lines) c ≡ (line_entries_of pl j lines, c)
unfolding advance line_entries_of
advance-later i j c pl [] h = refl
advance-later i j c pl (ln ∷ lines) h = elim (Bool-cases (changes pl ln)) [
  | inl new ↦
      let later : leb j i ≡ false = ground arith in
      rw (line_entries_of, new) (rw (advance, later) refl)
  | inr old ↦ rw (line_entries_of, old) (advance-later i (suc j) c pl lines (omega arith))
]

-- the line that the reader has is the one that the writer compares with
abbrev IsCurrent : Option ℕ → ℕ → Type 0
IsCurrent none c = Unit
IsCurrent (some pl) c = pl ≡ c

unchanged : (pl : Option ℕ) (c ln : ℕ) → IsCurrent pl c → changes pl ln ≡ false → c ≡ ln
unchanged none c ln cur h = cc
unchanged (some pl) c ln cur h = ground (arith, cur, h)

fill_step :
    (n i c ln : ℕ) (es rest : List VebcLineEntry)
    → advance i es c ≡ (rest, ln)
    → fill_lines (suc n) i es c ≡ ln ∷ fill_lines n (suc i) rest ln
unfolding fill_lines
fill_step n i c ln es rest e =
    ap (λ (r : List VebcLineEntry × ℕ). r.1 ∷ fill_lines n (suc i) r.0 r.1) e

advance-new :
    (i c ln : ℕ) (pl : Option ℕ) (lines : List ℕ)
    → changes pl ln ≡ true
    → advance i (line_entries_of pl i (ln ∷ lines)) c
      ≡ (line_entries_of (some ln) (suc i) lines, ln)
unfolding advance line_entries_of
advance-new i c ln pl lines new =
    let now : leb i i ≡ true = ground arith in
    rw (line_entries_of, new)
      (rw (advance, now) (advance-later i (suc i) ln (some ln) lines (omega arith)))

advance-old :
    (i c ln : ℕ) (pl : Option ℕ) (lines : List ℕ)
    → changes pl ln ≡ false
    → advance i (line_entries_of pl i (ln ∷ lines)) c ≡ (line_entries_of pl (suc i) lines, c)
unfolding line_entries_of
advance-old i c ln pl lines old =
    rw (line_entries_of, old) (advance-later i (suc i) c pl lines (omega arith))

-- Filling in the lines from the entries of the line table gives the lines back.
pub fill_lines-line_entries_of :
    (lines : List ℕ) (i c : ℕ) (pl : Option ℕ)
    → IsCurrent pl c
    → fill_lines (length lines) i (line_entries_of pl i lines) c ≡ lines
unfolding fill_lines
fill_lines-line_entries_of [] i c pl cur = refl
fill_lines-line_entries_of (ln ∷ lines) i c pl cur = elim (Bool-cases (changes pl ln)) [
  | inl new ↦
      fill_step (length lines) i c ln (line_entries_of pl i (ln ∷ lines))
        (line_entries_of (some ln) (suc i) lines) (advance-new i c ln pl lines new)
      ∙ ap (λ r. ln ∷ r) (fill_lines-line_entries_of lines (suc i) ln (some ln) refl)
  | inr old ↦
      let same = unchanged pl c ln cur old in
      fill_step (length lines) i c c (line_entries_of pl i (ln ∷ lines))
        (line_entries_of pl (suc i) lines) (advance-old i c ln pl lines old)
      ∙ ap₂ ◌∷◌ same (fill_lines-line_entries_of lines (suc i) c pl cur)
]
