-- ===== src/Vebc/WholeFunction.antt =====
-- A function that src/vebc_writer.c puts into a container of its own comes back from src/vebc_loader.c.
use vek.Prelude.{
  ℕ, ◌+◌, ◌%◌, ◌^◌, ◌<◌, ◌≡◌, refl, sym, ap, ◌∙◌, subst, inl, inr, Bool-cases, true, false, Option,
  none, some, ◌>>=◌, List, [], ◌∷◌, ◌++◌, append-nil, map, Bytes, length, drop, get_elem?, ltb,
  lt→ltb, leb, arith, ◌==◌, ◌&&◌, if◌then◌else◌, All, replicate,
}
use vek.Gc.{Objects}
use vek.Vebc.{
  VebcConstant, VebcFunction, vebc_builder_init, write_sections, vebc_builder_write, write_all,
  write_line, write_function,
}
use vek.Vebc.Load.{VebcFile, vebc_load, byte_at, read_u32_le}
use vek.Vebc.Functions.{Function, line_entries_of, name_of, vebc_builder_add_function}
use vek.Vebc.Entry.{
  Loaded, LoadedFunction, read_constants, fill_lines, read_lines, read_code, lines_of,
  vebc_to_function,
}
use vek.Vebc.Lines.{fill_lines-line_entries_of}
use vek.Vebc.Constants.{resolve, FitsField, read_constants-write}
use vek.Vebc.Reads.{
  FitsEntry, read_name, read_params, read_code_offset, read_code_length, read_line_offset,
  read_line_length, FitsLine, read_lines-write, line_entries_of-FitsLine,
}
use vek.Vebc.RoundTrip.{
  IsWritable, file_of, from_assets, from_upvalues, from_strings, vebc_load-vebc_builder_write,
  take-append_self,
}
use vek.Vebc.Assembled.{IsPortable, entry_of, container, returned, added}

code_back :
    (fn : Function) (strings : List Bytes) (new : List VebcConstant) (hash : Bytes)
    → length fn.chunk.code < 2 ^ 32
    → read_code (file_of (container fn strings new) hash) 0 (length fn.chunk.code)
      ≡ some fn.chunk.code
unfolding read_code
code_back fn strings new hash small = elim (Bool-cases (length fn.chunk.code == 0)) [
  | inl e ↦ rw e (ap some (sym (no_bytes fn.chunk.code e)))
  | inr e ↦
      let room : ltb (length fn.chunk.code) ((0 + length fn.chunk.code) % 2 ^ 32) ≡ false =
        ground arith in
      rw (e, room) (ap some (take-append_self fn.chunk.code _))
]
  where
    no_bytes : (xs : Bytes) → (length xs == 0) ≡ true → xs ≡ []
    no_bytes [] e = refl
    no_bytes (x ∷ xs) e = absurd (ground (arith, e))

entries_pos : (ln : ℕ) (lines : List ℕ) → 0 < length (line_entries_of none 0 (ln ∷ lines))
unfolding line_entries_of
entries_pos ln lines = omega arith

-- the test of `vebc_to_function` and its two branches
tabled :
    (lines : List ℕ) (rest : Bytes)
    → All FitsLine (line_entries_of none 0 lines)
    → length (line_entries_of none 0 lines) < 2 ^ 32
    → (let es = line_entries_of none 0 lines in
        if ltb 0 (length es) && leb ((0 + length es) % 2 ^ 32) (length es)
        then fill_lines
            (length lines)
            0
            (read_lines (length es) (write_all write_line es ++ rest))
            1
        else replicate (length lines) 0)
      ≡ lines
unfolding line_entries_of
tabled [] rest h few = refl
tabled (ln ∷ lines) rest h few =
    let es = line_entries_of none 0 (ln ∷ lines) in
    let some_lines : ltb 0 (length es) ≡ true = lt→ltb 0 (length es) (entries_pos ln lines) in
    let in_table : leb ((0 + length es) % 2 ^ 32) (length es) ≡ true = ground (arith, few) in
    rw (some_lines, in_table)
      (ap (λ t. fill_lines (length (ln ∷ lines)) 0 t 1) (read_lines-write es rest h)
        ∙ fill_lines-line_entries_of (ln ∷ lines) 0 1 none tt)

lines_back :
    (fn : Function) (strings : List Bytes) (new : List VebcConstant) (hash : Bytes)
    → length fn.chunk.lines ≡ length fn.chunk.code
    → length fn.chunk.code < 2 ^ 32
    → All (λ l. l < 2 ^ 32) fn.chunk.lines
    → length (line_entries_of none 0 fn.chunk.lines) < 2 ^ 32
    → lines_of
        (file_of (container fn strings new) hash)
        (length fn.chunk.code)
        0
        (length (line_entries_of none 0 fn.chunk.lines))
      ≡ fn.chunk.lines
unfolding lines_of
lines_back fn strings new hash paired small fits few =
    let file = file_of (container fn strings new) hash in
    ap (λ n. lines_of file n 0 (length (line_entries_of none 0 fn.chunk.lines))) (sym paired)
    ∙ tabled fn.chunk.lines (from_assets (container fn strings new))
        (line_entries_of-FitsLine none 0 fn.chunk.lines (omega (arith, paired)) fits) few

-- what `vebc_to_function` makes of the fields of the entry
decoded : VebcFile → ℕ → ℕ → ℕ → ℕ → ℕ → ℕ → ℕ → Option LoadedFunction
decoded file name_idx params upvalues code_offset code_length line_offset line_length = do
  code ← read_code file code_offset code_length
  some (record {
    arity = params;
    upvalue_count = upvalues;
    name = get_elem? file.strings name_idx;
    code = code;
    lines = lines_of file code_length line_offset line_length;
    constants = read_constants file.strings file.const_count file.const_offset;
  })

decoded_at : VebcFile → Bytes → Option LoadedFunction
unfolding decoded
decoded_at file entry =
    decoded file (read_u32_le entry) (byte_at entry 6) (byte_at entry 7)
      (read_u32_le (drop 8 entry)) (read_u32_le (drop 12 entry)) (read_u32_le (drop 16 entry))
      (read_u32_le (drop 20 entry))

to_function-decoded :
    (file : VebcFile)
    → (file.func_count == 0) ≡ false
    → vebc_to_function file ≡ decoded_at file file.func_offset
unfolding vebc_to_function decoded decoded_at
to_function-decoded file some_function = rw some_function refl

decoded_entry :
    (file : VebcFile) (vf : VebcFunction) (behind : Bytes)
    → FitsEntry vf
    → decoded_at file (write_function vf ++ behind)
      ≡ decoded file vf.name_idx vf.num_params vf.num_upvalues vf.code_offset vf.code_length
          vf.line_table_offset vf.line_table_length
unfolding decoded_at
decoded_entry file vf behind f =
    rw
      (
        read_name vf behind f,
        (read_params vf behind f).0,
        (read_params vf behind f).1,
        read_code_offset vf behind f,
        read_code_length vf behind f,
        read_line_offset vf behind f,
        read_line_length vf behind f,
      )
      refl

container_back :
    (fn : Function) (strings : List Bytes) (new : List VebcConstant) (hash : Bytes)
    → IsWritable (container fn (name_of fn.name ∷ strings) new)
    → length fn.chunk.lines ≡ length fn.chunk.code
    → All (λ l. l < 2 ^ 32) fn.chunk.lines
    → All FitsField new
    → vebc_to_function (file_of (container fn (name_of fn.name ∷ strings) new) hash)
      ≡ some (returned fn (map (resolve (name_of fn.name ∷ strings)) new))
unfolding decoded
container_back fn strings new hash w paired fits fields =
    let b = container fn (name_of fn.name ∷ strings) new in
    let file = file_of b hash in
    let vf = entry_of fn in
    let f : FitsEntry vf = record {
      name_idx = omega arith;
      code_offset = omega arith;
      code_length = w.instructions;
      line_table_offset = omega arith;
      line_table_length = w.lines;
    } in
    to_function-decoded file refl
    ∙ ap (λ e. decoded_at file (e ++ from_upvalues b)) (append-nil (write_function vf))
    ∙ decoded_entry file vf (from_upvalues b) f
    ∙ rw
        (
          code_back fn (name_of fn.name ∷ strings) new hash w.instructions,
          lines_back fn (name_of fn.name ∷ strings) new hash paired w.instructions fits w.lines,
          read_constants-write (name_of fn.name ∷ strings) new (from_strings b) fields,
        )
        refl

-- A function whose constants can be stored, written into a container of its own and loaded from it, comes
-- back with its arity, upvalue count, code and the line of each byte, and with its name, or `<script>` if it
-- had none. Its numbers, strings and byte strings come back, and a function constant comes back as nil.
pub vebc_to_function-add_function :
    (sha256 : Bytes → Bytes) (heap : Objects) (fn : Function) (ls : List Loaded)
    → IsPortable heap fn ls
    → IsWritable (vebc_builder_add_function heap vebc_builder_init fn)
    → length (sha256 (write_sections (vebc_builder_add_function heap vebc_builder_init fn))) ≡ 32
    → (vebc_load (vebc_builder_write sha256 (vebc_builder_add_function heap vebc_builder_init fn))
        >>= vebc_to_function)
      ≡ some (returned fn ls)
vebc_to_function-add_function sha256 heap fn ls p w sized =
    let b = vebc_builder_add_function heap vebc_builder_init fn in
    let hash = sha256 (write_sections b) in
    let (new, more, made, fields, loaded) = added heap fn ls p in
    ap (λ f. f >>= vebc_to_function) (vebc_load-vebc_builder_write sha256 b sized w)
    ∙ ap (λ c. vebc_to_function (file_of c hash)) made
    ∙ container_back fn more new hash (subst IsWritable made w) p.paired p.lines fields
    ∙ ap (λ l. some (returned fn l)) loaded
