-- ===== src/Vebc.antt =====
-- The bytecode container: the writer of src/vebc_writer.c. A section of the file is the list of its
-- bytes. A signed or floating constant is its 64-bit pattern, and a memory write is the bytes written.
pub mod Load
pub mod RoundTrip
pub mod Strings
pub mod Functions
pub mod Entry
pub mod Lines
pub mod Constants
pub mod OneConstant
pub mod Gathered
pub mod Reads
pub mod Assembled
pub mod WholeFunction
pub mod Verify
mod Tests
mod FunctionTests
use vek.Prelude.{
  ℕ, zero, suc, ◌+◌, ◌*◌, ◌/◌, ◌%◌, ◌^◌, Bool, true, false, List, [], ◌∷◌, ◌++◌, Bytes, length,
  replicate, take, ltb, leb, ◌==◌, if◌then◌else◌, bytes_eq, Option, none, some,
}

-- tag and payload
pub data VebcConstant : Type 0 where
  const_int : ℕ → VebcConstant
  const_float : ℕ → VebcConstant
  const_string : ℕ → VebcConstant
  const_bytes : Bytes → VebcConstant
  const_func_ref : ℕ → VebcConstant

pub record VebcFunction : Type 0 where
  pub name_idx : ℕ
  pub num_regs : ℕ
  pub num_params : ℕ
  pub num_upvalues : ℕ
  pub code_offset : ℕ
  pub code_length : ℕ
  pub line_table_offset : ℕ
  pub line_table_length : ℕ

pub record VebcUpvalue : Type 0 where
  pub src_idx : ℕ
  pub slot : ℕ
  pub is_local : ℕ

pub record VebcLineEntry : Type 0 where
  pub code_offset : ℕ
  pub source_line : ℕ

pub record VebcAsset : Type 0 where
  pub path_idx : ℕ
  pub contents : Bytes

-- Each array with its count is a list.
pub record VebcBuilder : Type 0 where
  pub strings : List Bytes
  pub constants : List VebcConstant
  pub functions : List VebcFunction
  pub upvalues : List VebcUpvalue
  pub instructions : Bytes
  pub line_entries : List VebcLineEntry
  pub assets : List VebcAsset

abbrev pub vebc_builder_init : VebcBuilder
vebc_builder_init = record {
  strings = [];
  constants = [];
  functions = [];
  upvalues = [];
  instructions = [];
  line_entries = [];
  assets = [];
}

abbrev pub max_strings : ℕ
max_strings = 4096

abbrev pub max_assets : ℕ
max_assets = 1024

-- the first string that is the same, counted from `i`
unfoldable pub find_string : List Bytes → Bytes → ℕ → Option ℕ
find_string [] str i = none
find_string (s ∷ ss) str i = if bytes_eq s str then some i else find_string ss str (i + 1)

-- the new builder and the index; a full table gives index 0
unfoldable pub vebc_builder_add_string : VebcBuilder → Bytes → VebcBuilder × ℕ
vebc_builder_add_string b str = elim (find_string b.strings str 0) [
  | some i ↦ (b, i)
  | none ↦
      if leb max_strings (length b.strings)
      then (b, 0)
      else (record b { strings = b.strings ++ (str ∷ []) }, length b.strings)
]

unfoldable pub vebc_builder_add_asset : VebcBuilder → Bytes → Bytes → VebcBuilder
vebc_builder_add_asset b path contents =
    let (b', i) = vebc_builder_add_string b path in
    if leb max_assets (length b.assets)
    then b
    else record b' { assets = b'.assets ++ (record { path_idx = i; contents = contents } ∷ []) }

unfoldable pub write_u16_le : ℕ → Bytes
write_u16_le val = val % 256 ∷ val / 2 ^ 8 % 256 ∷ []

unfoldable pub write_u32_le : ℕ → Bytes
write_u32_le val = val % 256 ∷ val / 2 ^ 8 % 256 ∷ val / 2 ^ 16 % 256 ∷ val / 2 ^ 24 % 256 ∷ []

-- `write_i64_le`, and `write_f64_le` on a little-endian machine
unfoldable pub write_u64_le : ℕ → Bytes
write_u64_le val =
    val % 256
    ∷ val / 2 ^ 8 % 256
    ∷ val / 2 ^ 16 % 256
    ∷ val / 2 ^ 24 % 256
    ∷ val / 2 ^ 32 % 256
    ∷ val / 2 ^ 40 % 256
    ∷ val / 2 ^ 48 % 256
    ∷ val / 2 ^ 56 % 256
    ∷ []

unfoldable pub write_constant : VebcConstant → Bytes
write_constant (const_int i) = 0x01 ∷ write_u64_le i
write_constant (const_float f) = 0x02 ∷ write_u64_le f
write_constant (const_string i) = 0x03 ∷ write_u32_le i
write_constant (const_bytes b) = 0x04 ∷ (write_u32_le (length b) ++ b)
write_constant (const_func_ref i) = 0x05 ∷ write_u32_le i

unfoldable pub write_string : Bytes → Bytes
write_string s = write_u32_le (length s) ++ s

unfoldable pub write_function : VebcFunction → Bytes
write_function vf =
    write_u32_le vf.name_idx
    ++ (write_u16_le vf.num_regs
        ++ (vf.num_params
            ∷ vf.num_upvalues
            ∷ (write_u32_le vf.code_offset
                ++ (write_u32_le vf.code_length
                    ++ (write_u32_le vf.line_table_offset ++ write_u32_le vf.line_table_length)))))

unfoldable pub write_upvalue : VebcUpvalue → Bytes
write_upvalue uv = write_u32_le uv.src_idx ++ (uv.slot ∷ uv.is_local ∷ [])

unfoldable pub write_line : VebcLineEntry → Bytes
write_line e = write_u32_le e.code_offset ++ write_u32_le e.source_line

unfoldable pub write_asset : VebcAsset → Bytes
write_asset as' = write_u32_le as'.path_idx ++ (write_u32_le (length as'.contents) ++ as'.contents)

-- a loop over an array
abbrev pub write_all {ℓ} : {A : Type ℓ} → (A → Bytes) → List A → Bytes
write_all write [] = []
write_all write (x ∷ xs) = write x ++ write_all write xs

-- a section: the count and the entries
abbrev pub section {ℓ} : {A : Type ℓ} → (A → Bytes) → List A → Bytes
section write xs = write_u32_le (length xs) ++ write_all write xs

-- the bytes behind the header
unfoldable pub write_sections : VebcBuilder → Bytes
write_sections b =
    section write_constant b.constants
    ++ (section write_string b.strings
        ++ (section write_function b.functions
            ++ (section write_upvalue b.upvalues
                ++ (write_string b.instructions
                    ++ (section write_line b.line_entries ++ section write_asset b.assets)))))

-- The contents of the file. `sha256` is the hash of the sections.
unfoldable pub vebc_builder_write : (Bytes → Bytes) → VebcBuilder → Bytes
vebc_builder_write sha256 b =
    0x56
    ∷ 0x45
    ∷ 0x42
    ∷ 0x43
    ∷ (write_u16_le 1
        ++ (write_u16_le 0 ++ (sha256 (write_sections b) ++ (replicate 24 0 ++ write_sections b))))
