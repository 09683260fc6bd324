-- ===== src/Vebc/Entry.antt =====
-- `vebc_to_function` and `vebc_verify` of src/vebc_loader.c. A constant that the loader makes is its value, or
-- the bytes of the object that it points at.
use vek.Prelude.{
  ℕ, zero, suc, ◌+◌, ◌*◌, ◌%◌, ◌^◌, Bool, false, ◌&&◌, Option, none, some, ◌>>=◌, List, [], ◌∷◌,
  Bytes, length, take, drop, get_elem?, replicate, leb, ltb, ◌==◌, if◌then◌else◌, bytes_eq,
}
use vek.Value.{int_val, double_val}
use vek.Vebc.{VebcLineEntry}
use vek.Vebc.Load.{VebcFile, byte_at, read_u32_le}

pub data Loaded : Type 0 where
  value : ℕ → Loaded
  string : Bytes → Loaded
  bytes : Bytes → Loaded
  nil : Loaded

pub record LoadedFunction : Type 0 where
  pub arity : ℕ
  pub upvalue_count : ℕ
  pub name : Option Bytes
  pub code : Bytes
  pub lines : List ℕ
  pub constants : List Loaded

-- `read_i64_le` and `read_f64_le`
unfoldable pub read_u64_le : Bytes → ℕ
read_u64_le p = read_u32_le p + read_u32_le (drop 4 p) * 2 ^ 32

-- the entries of a line table
unfoldable pub read_lines : ℕ → Bytes → List VebcLineEntry
read_lines zero p = []
read_lines (suc n) p =
    record { code_offset = read_u32_le p; source_line = read_u32_le (drop 4 p) }
    ∷ read_lines n (drop 8 p)

-- the inner loop: past the entries up to offset `i`
unfoldable pub advance : ℕ → List VebcLineEntry → ℕ → List VebcLineEntry × ℕ
advance i [] current_line = ([], current_line)
advance i (e ∷ es) current_line =
    let rest = advance i es e.source_line in
    if leb e.code_offset i then rest else (e ∷ es, current_line)

-- the lines of `n` bytes from offset `i` on
unfoldable pub fill_lines : ℕ → ℕ → List VebcLineEntry → ℕ → List ℕ
fill_lines zero i es current_line = []
fill_lines (suc n) i es current_line =
    let (rest, line) = advance i es current_line in line ∷ fill_lines n (suc i) rest line

unfoldable pub string_at : List Bytes → ℕ → Loaded
string_at strings i = elim (get_elem? strings i) [ none ↦ nil | some s ↦ string s ]

-- the constant behind a tag, and the position behind it; an unknown tag has no payload
unfoldable pub read_constant : List Bytes → ℕ → Bytes → Loaded × Bytes
read_constant strings tag p =
    if tag == 0x01
    then (value (int_val (read_u64_le p)), drop 8 p)
    else if tag == 0x02
    then (value (double_val (read_u64_le p)), drop 8 p)
    else if tag == 0x03
    then (string_at strings (read_u32_le p), drop 4 p)
    else if tag == 0x05
    then (nil, drop 4 p)
    else if tag == 0x04
    then (bytes (take (read_u32_le p) (drop 4 p)), drop (read_u32_le p) (drop 4 p))
    else (nil, p)

unfoldable pub read_constants : List Bytes → ℕ → Bytes → List Loaded
read_constants strings zero p = []
read_constants strings (suc n) p =
    let (c, q) = read_constant strings (byte_at p 0) (drop 1 p) in c ∷ read_constants strings n q

-- `none` if the code is out of bounds; the offsets are 32-bit
unfoldable pub read_code : VebcFile → ℕ → ℕ → Option Bytes
read_code file code_offset code_length =
    if code_length == 0
    then some []
    else (if ltb file.instr_length ((code_offset + code_length) % 2 ^ 32)
        then none
        else some (take code_length (drop code_offset file.instr_offset)))

-- the lines are 0 without a line table
unfoldable pub lines_of : VebcFile → ℕ → ℕ → ℕ → List ℕ
lines_of file code_length line_table_offset line_table_length =
    if ltb 0 line_table_length
      && leb ((line_table_offset + line_table_length) % 2 ^ 32) file.line_count
    then fill_lines code_length 0
        (read_lines line_table_length (drop (line_table_offset * 8) file.line_offset)) 1
    else replicate code_length 0

unfoldable pub vebc_to_function : VebcFile → Option LoadedFunction
vebc_to_function file =
    let entry = file.func_offset in
    let code_length = read_u32_le (drop 12 entry) in
    if file.func_count == 0 then none else (do
      code ← read_code file (read_u32_le (drop 8 entry)) code_length
      some (record {
        arity = byte_at entry 6;
        upvalue_count = byte_at entry 7;
        name = get_elem? file.strings (read_u32_le entry);
        code = code;
        lines =
            lines_of file code_length (read_u32_le (drop 16 entry)) (read_u32_le (drop 20 entry));
        constants = read_constants file.strings file.const_count file.const_offset;
      }))

-- on the contents of the file
unfoldable pub vebc_verify : (Bytes → Bytes) → Bytes → VebcFile → Bool
vebc_verify sha256 contents file =
    if ltb (length contents) 64 then false else bytes_eq (sha256 (drop 64 contents)) file.sha256
