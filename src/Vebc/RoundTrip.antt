-- ===== src/Vebc/RoundTrip.antt =====
-- What src/vebc_writer.c writes, src/vebc_loader.c reads back.
use vek.Prelude.{
  ℕ, suc, ◌+◌, ◌*◌, ◌^◌, ◌≤◌, ◌<◌, false, List, [], ◌∷◌, ◌++◌, append_assoc, Bytes, length,
  length-append, take, drop, ltb, arith, Option, some, ◌≡◌, ◌∙◌, refl, sym, ap, ap₂, All, replicate,
  bytes_eq,
}
use vek.Vebc.{
  VebcBuilder, VebcConstant, const_int, const_float, const_string, const_bytes, const_func_ref,
  VebcFunction, VebcUpvalue, VebcLineEntry, write_u16_le, write_u32_le, write_u64_le,
  write_constant, write_string, write_function, write_upvalue, write_line, write_asset, write_all,
  section, write_sections, vebc_builder_write,
}
use vek.Vebc.Load.{
  VebcFile, read_u16_le, read_u32_le, skip, and_then, read_count, skip_payload, skip_constants,
  load_strings, load_sections, vebc_load,
}

suc-mul : (k n : ℕ) → suc k * n ≡ n + k * n
suc-mul k n = grind arith

pub take-append_self {ℓ} : {A : Type ℓ} (xs ys : List A) → take (length xs) (xs ++ ys) ≡ xs
take-append_self [] ys = refl
take-append_self (x ∷ xs) ys = ap (◌∷◌ x) (take-append_self xs ys)

pub drop-append_self {ℓ} : {A : Type ℓ} (xs ys : List A) → drop (length xs) (xs ++ ys) ≡ ys
drop-append_self [] ys = refl
drop-append_self (x ∷ xs) ys = drop-append_self xs ys

skip-append : (xs ys : Bytes) (n : ℕ) → n ≡ length xs → skip n (xs ++ ys) ≡ some ys
unfolding skip
skip-append xs ys n e =
    let short : ltb (length (xs ++ ys)) n ≡ false = ground (arith, e, length-append xs ys) in
    rw short (ap some (ap (λ (k : ℕ). drop k (xs ++ ys)) e ∙ drop-append_self xs ys))

pub read_u32_le-write :
    (v : ℕ) (rest : Bytes) → v < 2 ^ 32 → read_u32_le (write_u32_le v ++ rest) ≡ v
unfolding read_u32_le write_u32_le
read_u32_le-write v rest lt = omega arith

read_count-write :
    (v : ℕ) (rest : Bytes) → v < 2 ^ 32 → read_count (write_u32_le v ++ rest) ≡ some (v, rest)
unfolding read_count write_u32_le
read_count-write v rest lt =
    rw (read_count, skip-append (write_u32_le v) rest 4 refl, read_u32_le-write v rest lt) refl

-- a constant whose lengths fit 32 bits
abbrev pub FitsConstant : VebcConstant → Type 0
FitsConstant (const_bytes b) = length b < 2 ^ 32
FitsConstant _ = Unit

-- past one constant, and then past the others
one_constant :
    (tag : ℕ) (payload : Bytes) (cs : List VebcConstant) (rest : Bytes)
    → skip_payload tag (payload ++ (write_all write_constant cs ++ rest))
      ≡ some (write_all write_constant cs ++ rest)
    → skip_constants (length cs) (write_all write_constant cs ++ rest) ≡ some rest
    → and_then
        (skip_payload tag (payload ++ write_all write_constant cs ++ rest))
        (skip_constants (length cs))
      ≡ some rest
one_constant tag payload cs rest e f =
    ap (λ (p : Bytes). and_then (skip_payload tag p) (skip_constants (length cs)))
      (append_assoc payload (write_all write_constant cs) rest)
    ∙ ap (λ (r : Option Bytes). and_then r (skip_constants (length cs))) e
    ∙ f

skip_bytes-write :
    (b rest : Bytes)
    → length b < 2 ^ 32
    → skip_payload 0x04 (write_u32_le (length b) ++ b ++ rest) ≡ some rest
unfolding skip_payload
skip_bytes-write b rest lt =
    ap (λ (p : Bytes). and_then (read_count p) (λ ((len, q) : ℕ × Bytes). skip len q))
      (append_assoc (write_u32_le (length b)) b rest)
    ∙ ap (λ (r : Option (ℕ × Bytes)). and_then r (λ ((len, q) : ℕ × Bytes). skip len q))
        (read_count-write (length b) (b ++ rest) lt)
    ∙ skip-append b rest (length b) refl

skip_constants-write :
    (cs : List VebcConstant) (rest : Bytes)
    → All FitsConstant cs
    → skip_constants (length cs) (write_all write_constant cs ++ rest) ≡ some rest
unfolding skip_constants write_constant skip_payload write_u32_le write_u64_le
skip_constants-write [] rest f = refl
skip_constants-write (const_int i ∷ cs) rest f =
    one_constant 1 (write_u64_le i) cs rest (skip-append (write_u64_le i) _ 8 refl)
      (skip_constants-write cs rest f.1)
skip_constants-write (const_float i ∷ cs) rest f =
    one_constant 2 (write_u64_le i) cs rest (skip-append (write_u64_le i) _ 8 refl)
      (skip_constants-write cs rest f.1)
skip_constants-write (const_string i ∷ cs) rest f =
    one_constant 3 (write_u32_le i) cs rest (skip-append (write_u32_le i) _ 4 refl)
      (skip_constants-write cs rest f.1)
skip_constants-write (const_func_ref i ∷ cs) rest f =
    one_constant 5 (write_u32_le i) cs rest (skip-append (write_u32_le i) _ 4 refl)
      (skip_constants-write cs rest f.1)
skip_constants-write (const_bytes b ∷ cs) rest f =
    one_constant 4 (write_u32_le (length b) ++ b) cs rest (skip_bytes-write b _ f.0)
      (skip_constants-write cs rest f.1)

load_strings-write :
    (ss : List Bytes) (rest : Bytes)
    → All (λ (s : Bytes). length s < 2 ^ 32) ss
    → load_strings (length ss) (write_all write_string ss ++ rest) ≡ some (ss, rest)
unfolding load_strings write_string
load_strings-write [] rest f = refl
load_strings-write (s ∷ ss) rest f =
    let more = write_all write_string ss ++ rest in
    let shape : ◌≡◌ {A = Bytes} (write_u32_le (length s) ++ s ++ write_all write_string ss ++ rest)
        (write_u32_le (length s) ++ (s ++ more)) =
      ap (λ (p : Bytes). p ++ rest)
        (append_assoc (write_u32_le (length s)) s (write_all write_string ss))
      ∙ append_assoc (write_u32_le (length s)) (s ++ write_all write_string ss) rest
      ∙ ap (λ (p : Bytes). write_u32_le (length s) ++ p)
          (append_assoc s (write_all write_string ss) rest) in
    rw
      (
        shape,
        read_count-write (length s) (s ++ more) f.0,
        skip-append s more (length s) refl,
        load_strings-write ss rest f.1,
        take-append_self s more,
      )
      refl

section-count {ℓ} :
    {A : Type ℓ} (write : A → Bytes) (xs : List A) (rest : Bytes)
    → length xs < 2 ^ 32
    → read_count (section write xs ++ rest) ≡ some (length xs, write_all write xs ++ rest)
section-count write xs rest lt =
    ap read_count (append_assoc (write_u32_le (length xs)) (write_all write xs) rest)
    ∙ read_count-write (length xs) (write_all write xs ++ rest) lt

-- entries of one size
length-write_all {ℓ} :
    {A : Type ℓ} (write : A → Bytes) (n : ℕ) (xs : List A)
    → ((x : A) → length (write x) ≡ n)
    → length (write_all write xs) ≡ length xs * n
length-write_all write n [] h = omega arith
length-write_all write n (x ∷ xs) h =
    length-append (write x) (write_all write xs)
    ∙ ap₂ ◌+◌ (h x) (length-write_all write n xs h)
    ∙ sym (suc-mul (length xs) n)

skip-entries {ℓ} :
    {A : Type ℓ} (write : A → Bytes) (n : ℕ) (xs : List A) (rest : Bytes)
    → ((x : A) → length (write x) ≡ n)
    → skip (length xs * n) (write_all write xs ++ rest) ≡ some rest
skip-entries write n xs rest h =
    skip-append (write_all write xs) rest (length xs * n) (sym (length-write_all write n xs h))

function_size : (vf : VebcFunction) → length (write_function vf) ≡ 24
unfolding write_function write_u32_le write_u16_le
function_size vf = refl

upvalue_size : (uv : VebcUpvalue) → length (write_upvalue uv) ≡ 6
unfolding write_upvalue write_u32_le
upvalue_size uv = refl

line_size : (e : VebcLineEntry) → length (write_line e) ≡ 8
unfolding write_line write_u32_le
line_size e = refl

-- The counts and lengths are in the range of the 32-bit fields that hold them.
pub record IsWritable (b : VebcBuilder) : Type 0 where
  pub constants : length b.constants < 2 ^ 32
  pub payloads : All FitsConstant b.constants
  pub strings : length b.strings < 2 ^ 32
  pub texts : All (λ (s : Bytes). length s < 2 ^ 32) b.strings
  pub functions : length b.functions < 2 ^ 32
  pub upvalues : length b.upvalues < 2 ^ 32
  pub instructions : length b.instructions < 2 ^ 32
  pub lines : length b.line_entries < 2 ^ 32
  pub assets : length b.assets < 2 ^ 32

-- the file from a section on
module _ (b : VebcBuilder) where
  abbrev pub from_assets : Bytes
  from_assets = section write_asset b.assets

  abbrev pub from_lines : Bytes
  from_lines = section write_line b.line_entries ++ from_assets

  abbrev pub from_instructions : Bytes
  from_instructions = write_string b.instructions ++ from_lines

  abbrev pub from_upvalues : Bytes
  from_upvalues = section write_upvalue b.upvalues ++ from_instructions

  abbrev pub from_functions : Bytes
  from_functions = section write_function b.functions ++ from_upvalues

  abbrev pub from_strings : Bytes
  from_strings = section write_string b.strings ++ from_functions

  -- Each count is the builder's, and each offset is that of the entries which it wrote.
  abbrev pub file_of : Bytes → VebcFile
  file_of sha256 = record {
    version = 1;
    flags = 0;
    sha256 = sha256;
    const_count = length b.constants;
    const_offset = write_all write_constant b.constants ++ from_strings;
    strings = b.strings;
    func_count = length b.functions;
    func_offset = write_all write_function b.functions ++ from_upvalues;
    upvalue_count = length b.upvalues;
    upvalue_offset = write_all write_upvalue b.upvalues ++ from_instructions;
    instr_length = length b.instructions;
    instr_offset = b.instructions ++ from_lines;
    line_count = length b.line_entries;
    line_offset = write_all write_line b.line_entries ++ from_assets;
    asset_count = length b.assets;
    asset_offset = write_all write_asset b.assets;
  }

  instructions-count :
      length b.instructions < 2 ^ 32
      → read_count from_instructions ≡ some (length b.instructions, b.instructions ++ from_lines)
  unfolding write_string
  instructions-count lt =
      ap read_count (append_assoc (write_u32_le (length b.instructions)) b.instructions from_lines)
      ∙ read_count-write (length b.instructions) (b.instructions ++ from_lines) lt

  load_sections-write :
      (sha256 : Bytes)
      → IsWritable b
      → load_sections 1 0 sha256 (write_sections b) ≡ some (file_of sha256)
  unfolding load_sections write_sections
  load_sections-write sha256 w =
      rw
        (
          section-count write_constant b.constants from_strings w.constants,
          skip_constants-write b.constants from_strings w.payloads,
          section-count write_string b.strings from_functions w.strings,
          load_strings-write b.strings from_functions w.texts,
          section-count write_function b.functions from_upvalues w.functions,
          skip-entries write_function 24 b.functions from_upvalues function_size,
          section-count write_upvalue b.upvalues from_instructions w.upvalues,
          skip-entries write_upvalue 6 b.upvalues from_instructions upvalue_size,
          instructions-count w.instructions,
          skip-append b.instructions from_lines (length b.instructions) refl,
          section-count write_line b.line_entries from_assets w.lines,
          skip-entries write_line 8 b.line_entries from_assets line_size,
          read_count-write (length b.assets) (write_all write_asset b.assets) w.assets,
        )
        refl

-- the parts behind the first eight bytes
module _ (hash sections : Bytes) (sized : length hash ≡ 32) where
  abbrev pub behind : Bytes
  behind = hash ++ (replicate 24 0 ++ sections)

  take-hash : take 32 behind ≡ hash
  take-hash =
      ap (λ (k : ℕ). take k behind) (sym sized) ∙ take-append_self hash (replicate 24 0 ++ sections)

  pub drop-sections : drop 56 behind ≡ sections
  drop-sections =
      let len : 56 ≡ length (hash ++ replicate 24 0) =
        omega (arith, sized, length-append hash (replicate 24 0)) in
      ap (drop 56) (sym (append_assoc hash (replicate 24 0) sections))
      ∙ ap (λ (k : ℕ). drop k (hash ++ replicate 24 0 ++ sections)) len
      ∙ drop-append_self (hash ++ replicate 24 0) sections

  pub length-behind : 56 ≤ length behind
  length-behind = omega (arith, sized, length-append hash (replicate 24 0 ++ sections))

-- What the writer writes is loaded: the counts, the strings and the hash are those of the builder, and
-- each offset is where the entries of its section were written, if the hash has 32 bytes and the
-- counts and lengths of the builder fit 32 bits.
pub vebc_load-vebc_builder_write :
    (sha256 : Bytes → Bytes) (b : VebcBuilder)
    → length (sha256 (write_sections b)) ≡ 32
    → IsWritable b
    → vebc_load (vebc_builder_write sha256 b) ≡ some (file_of b (sha256 (write_sections b)))
unfolding vebc_load vebc_builder_write write_u16_le read_u16_le bytes_eq
vebc_load-vebc_builder_write sha256 b sized w =
    let hash = sha256 (write_sections b) in
    let long : ltb
          (suc (
            suc
              (suc (suc (suc (suc (suc (suc (length (behind hash (write_sections b) sized))))))))))
          64
        ≡ false =
      ground (arith, length-behind hash (write_sections b) sized) in
    rw
      (
        long,
        take-hash hash (write_sections b) sized,
        drop-sections hash (write_sections b) sized,
        load_sections-write b hash w,
      )
      refl
