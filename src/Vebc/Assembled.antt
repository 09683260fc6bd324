-- ===== src/Vebc/Assembled.antt =====
-- The container that `vebc_builder_add_function` of src/vebc_writer.c makes of one function.
use vek.Prelude.{
  ℕ, ◌+◌, ◌%◌, ◌^◌, ◌<◌, ◌≡◌, refl, sym, ap, ◌∙◌, none, some, List, [], ◌∷◌, ◌++◌, append-nil, map,
  Bytes, length, take, arith, All,
}
use vek.Gc.{Objects}
use vek.Vebc.{
  VebcBuilder, VebcConstant, VebcFunction, vebc_builder_init, vebc_builder_add_string, find_string,
}
use vek.Vebc.Functions.{
  Function, line_entries_of, name_of, add_constants, vebc_builder_add_function,
}
use vek.Vebc.Entry.{Loaded, LoadedFunction}
use vek.Vebc.Constants.{resolve, FitsField}
use vek.Vebc.Gathered.{AllLoadedAs, AddsAll, add_constants-AddsAll}

-- a function that a container can hold, and what its constants are loaded as
pub record IsPortable (heap : Objects) (fn : Function) (ls : List Loaded) : Type 0 where
  pub constants : AllLoadedAs heap fn.chunk.constants ls
  pub few : length fn.chunk.constants < 4096
  pub code : length fn.chunk.code < 2 ^ 32
  pub paired : length fn.chunk.lines ≡ length fn.chunk.code
  pub lines : All (λ l. l < 2 ^ 32) fn.chunk.lines

abbrev pub entry_of : Function → VebcFunction
entry_of fn = record {
  name_idx = 0;
  num_regs = (fn.arity + 16) % 2 ^ 16;
  num_params = fn.arity;
  num_upvalues = fn.upvalue_count;
  code_offset = 0;
  code_length = length fn.chunk.code;
  line_table_offset = 0;
  line_table_length = length (line_entries_of none 0 fn.chunk.lines);
}

-- the container of one function, with the strings and constants that were gathered
abbrev pub container : Function → List Bytes → List VebcConstant → VebcBuilder
container fn strings constants = record {
  strings = strings;
  constants = constants;
  functions = entry_of fn ∷ [];
  upvalues = [];
  instructions = fn.chunk.code;
  line_entries = line_entries_of none 0 fn.chunk.lines;
  assets = [];
}

abbrev pub returned : Function → List Loaded → LoadedFunction
returned fn ls = record {
  arity = fn.arity;
  upvalue_count = fn.upvalue_count;
  name = some (name_of fn.name);
  code = fn.chunk.code;
  lines = fn.chunk.lines;
  constants = ls;
}

pub take_all : (xs : List ℕ) (n : ℕ) → n ≡ length xs → take n xs ≡ xs
take_all xs n e = ap (λ m. take m xs) e ∙ whole xs
  where
    whole : (xs : List ℕ) → take (length xs) xs ≡ xs
    whole [] = refl
    whole (x ∷ xs) = ap (λ r. x ∷ r) (whole xs)

-- the builder before the constants are gathered, and the entry, with the lines as they are read
abbrev coded : Function → VebcBuilder
coded fn = record {
  strings = name_of fn.name ∷ [];
  constants = [];
  functions = [];
  upvalues = [];
  instructions = fn.chunk.code;
  line_entries = line_entries_of none 0 fn.chunk.lines;
  assets = [];
}

abbrev assembled : VebcBuilder → VebcFunction → VebcBuilder
assembled full vf = record full { functions = full.functions ++ vf ∷ [] }

add_function-assembled :
    (heap : Objects) (fn : Function)
    → length fn.chunk.lines ≡ length fn.chunk.code
    → vebc_builder_add_function heap vebc_builder_init fn
      ≡ assembled (add_constants heap 0 (coded fn) fn.chunk.constants) (entry_of fn)
unfolding vebc_builder_add_function vebc_builder_add_string find_string
add_function-assembled heap fn paired =
    let with_lines = λ (lines : List ℕ).
      assembled
        (add_constants heap 0 (record (coded fn) { line_entries = line_entries_of none 0 lines })
          fn.chunk.constants)
        (record (entry_of fn) { line_table_length = length (line_entries_of none 0 lines) }) in
    ap with_lines (take_all fn.chunk.lines (length fn.chunk.code) (sym paired))

assembled-container :
    (fn : Function) (full : VebcBuilder) (ls : List Loaded) (a : AddsAll (coded fn) full ls)
    → assembled full (entry_of fn) ≡ container fn (name_of fn.name ∷ a.more) a.new
assembled-container fn full ls a =
    rw
      (
        a.strings, a.constants, a.same.functions, a.same.upvalues, a.same.instructions,
        a.same.line_entries, a.same.assets,
      )
      refl

-- The container that the writer makes of the function.
pub added :
    (heap : Objects) (fn : Function) (ls : List Loaded)
    → IsPortable heap fn ls
    → (new : List VebcConstant) × (more : List Bytes) × (vebc_builder_add_function heap
          vebc_builder_init fn
        ≡ container fn (name_of fn.name ∷ more) new)
      × All FitsField new
      × (map (resolve (name_of fn.name ∷ more)) new ≡ ls)
added heap fn ls p =
    let full = add_constants heap 0 (coded fn) fn.chunk.constants in
    let a =
      add_constants-AddsAll heap 0 (coded fn) fn.chunk.constants ls (omega arith) p.constants
        (omega (arith, p.few)) (omega (arith, p.few)) in
    (
      a.new,
      a.more,
      add_function-assembled heap fn p.paired ∙ assembled-container fn full ls a,
      a.fits,
      ap (λ ss. map (resolve ss) a.new) (sym a.strings ∙ sym (append-nil full.strings))
          ∙ a.means [],
    )
