-- ===== src/Vebc/Reads.antt =====
-- Reading back the entry, the lines and the code of a function.
use vek.Prelude.{
  ℕ, suc, ◌+◌, ◌^◌, ◌≤◌, ◌<◌, ◌≡◌, refl, ap₂, inl, inr, Bool-cases, Option, some, List, [], ◌∷◌,
  ◌++◌, Bytes, length, drop, arith, All,
}
use vek.Vebc.{
  VebcFunction, VebcLineEntry, write_u16_le, write_u32_le, write_function, write_line, write_all,
}
use vek.Vebc.Load.{byte_at, read_u32_le}
use vek.Vebc.Functions.{changes, line_entries_of}
use vek.Vebc.Entry.{read_lines}
use vek.Vebc.RoundTrip.{read_u32_le-write}

-- the fields fit their widths
pub record FitsEntry (vf : VebcFunction) : Type 0 where
  pub name_idx : vf.name_idx < 2 ^ 32
  pub code_offset : vf.code_offset < 2 ^ 32
  pub code_length : vf.code_length < 2 ^ 32
  pub line_table_offset : vf.line_table_offset < 2 ^ 32
  pub line_table_length : vf.line_table_length < 2 ^ 32

module _ (vf : VebcFunction) (rest : Bytes) (f : FitsEntry vf) where
  pub read_name : read_u32_le (write_function vf ++ rest) ≡ vf.name_idx
  unfolding read_u32_le write_function write_u32_le
  read_name = omega (arith, f.name_idx)

  pub read_params :
      (byte_at (write_function vf ++ rest) 6 ≡ vf.num_params)
      × (byte_at (write_function vf ++ rest) 7 ≡ vf.num_upvalues)
  unfolding write_function write_u32_le write_u16_le
  read_params = (refl, refl)

  pub read_code_offset : read_u32_le (drop 8 (write_function vf ++ rest)) ≡ vf.code_offset
  unfolding read_u32_le write_function write_u32_le write_u16_le
  read_code_offset = omega (arith, f.code_offset)

  pub read_code_length : read_u32_le (drop 12 (write_function vf ++ rest)) ≡ vf.code_length
  unfolding read_u32_le write_function write_u32_le write_u16_le
  read_code_length = omega (arith, f.code_length)

  pub read_line_offset : read_u32_le (drop 16 (write_function vf ++ rest)) ≡ vf.line_table_offset
  unfolding read_u32_le write_function write_u32_le write_u16_le
  read_line_offset = omega (arith, f.line_table_offset)

  pub read_line_length : read_u32_le (drop 20 (write_function vf ++ rest)) ≡ vf.line_table_length
  unfolding read_u32_le write_function write_u32_le write_u16_le
  read_line_length = omega (arith, f.line_table_length)

abbrev pub FitsLine : VebcLineEntry → Type 0
FitsLine e = (e.code_offset < 2 ^ 32) × (e.source_line < 2 ^ 32)

pub read_lines-write :
    (es : List VebcLineEntry) (rest : Bytes)
    → All FitsLine es
    → read_lines (length es) (write_all write_line es ++ rest) ≡ es
unfolding read_lines write_line write_u32_le
read_lines-write [] rest h = refl
read_lines-write (e ∷ es) rest h =
    let more = write_all write_line es ++ rest in
    ap₂ ◌∷◌
      (ap₂ (λ o l. record { code_offset = o; source_line = l })
        (read_u32_le-write e.code_offset (write_u32_le e.source_line ++ more) h.0.0)
        (read_u32_le-write e.source_line more h.0.1))
      (read_lines-write es rest h.1)

pub line_entries_of-FitsLine :
    (pl : Option ℕ) (i : ℕ) (lines : List ℕ)
    → i + length lines ≤ 2 ^ 32
    → All (λ l. l < 2 ^ 32) lines
    → All FitsLine (line_entries_of pl i lines)
unfolding line_entries_of
line_entries_of-FitsLine pl i [] h a = tt
line_entries_of-FitsLine pl i (ln ∷ lines) h a = elim (Bool-cases (changes pl ln)) [
  | inl new ↦
      rw (line_entries_of, new)
        ((omega arith, a.0), line_entries_of-FitsLine (some ln) (suc i) lines (omega arith) a.1)
  | inr old ↦
      rw (line_entries_of, old) (line_entries_of-FitsLine pl (suc i) lines (omega arith) a.1)
]
