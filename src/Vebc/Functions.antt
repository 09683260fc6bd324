-- ===== src/Vebc/Functions.antt =====
-- The functions of the container: `vebc_builder_add_function` of src/vebc_writer.c takes a function object
-- apart. The objects that its constants point at are read from the heap.
use vek.Prelude.{
  ℕ, suc, ◌+◌, ◌%◌, ◌^◌, Bool, true, not, Option, none, some, List, [], ◌∷◌, ◌++◌, Bytes, length,
  take, leb, ◌==◌, if◌then◌else◌,
}
use vek.Value.{is_int, is_float, is_ptr, value_as_int, value_as_double, value_as_ptr}
use vek.Chunk.{Chunk}
use vek.Object.{Kind, obj_string, obj_bytes, obj_function}
use vek.Gc.{Objects}
use vek.Gc.Marks.{kind_at}
use vek.Lexer.Keywords.{codes}
use vek.Vebc.{
  VebcConstant, const_int, const_float, const_string, const_bytes, const_func_ref, VebcFunction,
  VebcLineEntry, VebcBuilder, vebc_builder_add_string,
}

-- the fields of `ObjFunction`; a name that is NULL is `none`
pub record Function : Type 0 where
  pub arity : ℕ
  pub upvalue_count : ℕ
  pub chunk : Chunk
  pub name : Option Bytes

abbrev pub max_functions : ℕ
max_functions = 1024

abbrev pub max_constants : ℕ
max_constants = 4096

-- what a pointer value points at
abbrev pub pointee : Objects → ℕ → Option Kind
pointee heap val = if is_ptr val then kind_at heap (value_as_ptr val) else none

-- `ln != pl`, where `none` is the initial -1
abbrev pub changes : Option ℕ → ℕ → Bool
changes none ln = true
changes (some pl) ln = not (ln == pl)

-- an entry of the line table where the line changes
unfoldable pub line_entries_of : Option ℕ → ℕ → List ℕ → List VebcLineEntry
line_entries_of pl i [] = []
line_entries_of pl i (ln ∷ lines) =
    let rest = line_entries_of (some ln) (suc i) lines in
    let same = line_entries_of pl (suc i) lines in
    if changes pl ln then record { code_offset = i; source_line = ln } ∷ rest else same

abbrev pub put_constant : VebcBuilder → VebcConstant → VebcBuilder
put_constant b c = record b { constants = b.constants ++ c ∷ [] }

-- the constant that points at an object
abbrev pub add_pointee : ℕ → VebcBuilder → Option Kind → VebcBuilder
add_pointee func_count b (some (obj_string chars)) =
    let (b', i) = vebc_builder_add_string b chars in put_constant b' (const_string i)
add_pointee func_count b (some (obj_function arity count chunk name)) =
    put_constant b (const_func_ref func_count)
add_pointee func_count b (some (obj_bytes chars)) = put_constant b (const_bytes chars)
add_pointee func_count b other = b

unfoldable pub add_constant : Objects → ℕ → VebcBuilder → ℕ → VebcBuilder
add_constant heap func_count b val =
    if is_int val
    then put_constant b (const_int (value_as_int val))
    else (if is_float val
        then put_constant b (const_float (value_as_double val))
        else add_pointee func_count b (pointee heap val))

-- the loop over the constants, which a full table stops
unfoldable pub add_constants : Objects → ℕ → VebcBuilder → List ℕ → VebcBuilder
add_constants heap func_count b [] = b
add_constants heap func_count b (val ∷ vals) =
    let rest = add_constants heap func_count (add_constant heap func_count b val) vals in
    if leb max_constants (length b.constants) then b else rest

abbrev pub name_of : Option Bytes → Bytes
name_of none = codes "<script>"
name_of (some name) = name

-- the builder with the code and the lines, and the function's entry
abbrev pub with_code : VebcBuilder → Function → ℕ → VebcBuilder × VebcFunction
with_code b fn name_idx =
    let lines = line_entries_of none 0 (take (length fn.chunk.code) fn.chunk.lines) in
    (
      record b {
        instructions = b.instructions ++ fn.chunk.code;
        line_entries = b.line_entries ++ lines;
      },
      record {
        name_idx = name_idx;
        num_regs = (fn.arity + 16) % 2 ^ 16;
        num_params = fn.arity;
        num_upvalues = fn.upvalue_count;
        code_offset = length b.instructions;
        code_length = length fn.chunk.code;
        line_table_offset = length b.line_entries;
        line_table_length = length lines;
      },
    )

unfoldable pub vebc_builder_add_function : Objects → VebcBuilder → Function → VebcBuilder
vebc_builder_add_function heap b fn =
    let (named, name_idx) = vebc_builder_add_string b (name_of fn.name) in
    let (coded, vf) = with_code named fn name_idx in
    let full = add_constants heap (length b.functions) coded fn.chunk.constants in
    if leb max_functions (length b.functions)
    then b
    else record full { functions = full.functions ++ vf ∷ [] }
