-- ===== src/Vebc/Tests.antt =====
-- Runs of src/vebc_writer.c and src/vebc_loader.c, and their theorems at such files.
use vek.Prelude.{ℕ, ◌≡◌, refl, some, [], ◌∷◌, Bytes, replicate, arith}
use vek.Lexer.Keywords.{codes}
use vek.Vebc.{VebcBuilder, const_int, const_bytes, vebc_builder_add_string, vebc_builder_write}
use vek.Vebc.Load.{vebc_load}
use vek.Vebc.RoundTrip.{file_of, vebc_load-vebc_builder_write}
use vek.Vebc.Strings.{IsInterned, vebc_builder_add_string-IsInterned}

-- two constants, one string and a function's two bytes of code
abbrev builder : VebcBuilder
builder = record {
  strings = codes "main" ∷ [];
  constants = const_int 7 ∷ const_bytes (1 ∷ 2 ∷ []) ∷ [];
  functions =
      record {
        name_idx = 0;
        num_regs = 16;
        num_params = 0;
        num_upvalues = 0;
        code_offset = 0;
        code_length = 2;
        line_table_offset = 0;
        line_table_length = 0;
      }
      ∷ [];
  upvalues = [];
  instructions = 5 ∷ 6 ∷ [];
  line_entries = [];
  assets = [];
}

abbrev pub no_hash : Bytes → Bytes
no_hash bytes = replicate 32 0

vebc_load-vebc_builder_write_example :
    vebc_load (vebc_builder_write no_hash builder) ≡ some (file_of builder (replicate 32 0))
vebc_load-vebc_builder_write_example = vebc_load-vebc_builder_write no_hash builder refl (record {
  constants = omega arith;
  payloads = (tt, (omega arith, tt));
  strings = omega arith;
  texts = (omega arith, tt);
  functions = omega arith;
  upvalues = omega arith;
  instructions = omega arith;
  lines = omega arith;
  assets = omega arith;
})

vebc_builder_add_string-IsInterned_example :
    (b' : VebcBuilder) × (i : ℕ) × (vebc_builder_add_string builder (codes "x") ≡ (b', i))
    × IsInterned builder b' (codes "x") i
vebc_builder_add_string-IsInterned_example =
    vebc_builder_add_string-IsInterned builder (codes "x") (omega arith)
