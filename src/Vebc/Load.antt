-- ===== src/Vebc/Load.antt =====
-- `vebc_load` of src/vebc_loader.c on the contents of a file. A position is the list of the bytes from it to
-- the end, so that `pos + n > file_size` is a list shorter than `n`. `none` is NULL.
use vek.Prelude.{
  ℕ, zero, suc, ◌+◌, ◌*◌, ◌^◌, not, List, [], ◌∷◌, Bytes, length, take, drop, get_or, ltb, ◌==◌,
  if◌then◌else◌, Option, none, some, bytes_eq,
}

pub record VebcFile : Type 0 where
  pub version : ℕ
  pub flags : ℕ
  pub sha256 : Bytes
  pub const_count : ℕ
  pub const_offset : Bytes
  pub strings : List Bytes
  pub func_count : ℕ
  pub func_offset : Bytes
  pub upvalue_count : ℕ
  pub upvalue_offset : Bytes
  pub instr_length : ℕ
  pub instr_offset : Bytes
  pub line_count : ℕ
  pub line_offset : Bytes
  pub asset_count : ℕ
  pub asset_offset : Bytes

abbrev pub byte_at : Bytes → ℕ → ℕ
byte_at file i = get_or file i 0

-- The bits of the bytes are disjoint, so that `|` is a sum.
unfoldable pub read_u16_le : Bytes → ℕ
read_u16_le p = byte_at p 0 + byte_at p 1 * 2 ^ 8

unfoldable pub read_u32_le : Bytes → ℕ
read_u32_le p = byte_at p 0 + byte_at p 1 * 2 ^ 8 + byte_at p 2 * 2 ^ 16 + byte_at p 3 * 2 ^ 24

-- `if (pos + n > file_size) goto truncated; ... pos += n;`
unfoldable pub skip : ℕ → Bytes → Option Bytes
skip n p = if ltb (length p) n then none else some (drop n p)

-- the stages up to `truncated`
abbrev pub and_then {ℓ κ} : {A : Type ℓ} {B : Type κ} → Option A → (A → Option B) → Option B
and_then none go = none
and_then (some a) go = go a

-- a count of four bytes, and the position behind it
unfoldable pub read_count : Bytes → Option (ℕ × Bytes)
read_count p = and_then (skip 4 p) (λ (q : Bytes). some (read_u32_le p, q))

-- past the payload of a constant
unfoldable pub skip_payload : ℕ → Bytes → Option Bytes
skip_payload tag p =
    if tag == 0x01
    then skip 8 p
    else if tag == 0x02
    then skip 8 p
    else if tag == 0x03
    then skip 4 p
    else if tag == 0x05
    then skip 4 p
    else if tag == 0x04
    then and_then (read_count p) (λ ((len, q) : ℕ × Bytes). skip len q)
    else none

unfoldable pub skip_constants : ℕ → Bytes → Option Bytes
skip_constants zero p = some p
skip_constants (suc n) [] = none
skip_constants (suc n) (tag ∷ p) = and_then (skip_payload tag p) (skip_constants n)

-- the string table, and the position behind it
unfoldable pub load_strings : ℕ → Bytes → Option (List Bytes × Bytes)
load_strings zero p = some ([], p)
load_strings (suc n) p = and_then (read_count p) (λ ((len, q) : ℕ × Bytes).
    and_then (skip len q) (λ (rest : Bytes).
      and_then (load_strings n rest)
        (λ ((ss, end) : List Bytes × Bytes). some (take len q ∷ ss, end))))

-- from offset 64 on
unfoldable pub load_sections : ℕ → ℕ → Bytes → Bytes → Option VebcFile
load_sections version flags sha256 p = and_then (read_count p) (λ ((consts, p1) : ℕ × Bytes).
    and_then (skip_constants consts p1) (λ (p2 : Bytes).
      and_then (read_count p2) (λ ((strings, p3) : ℕ × Bytes).
        and_then (load_strings strings p3) (λ ((ss, p4) : List Bytes × Bytes).
          and_then (read_count p4) (λ ((funcs, p5) : ℕ × Bytes).
            and_then (skip (funcs * 24) p5) (λ (p6 : Bytes).
              and_then (read_count p6) (λ ((upvalues, p7) : ℕ × Bytes).
                and_then (skip (upvalues * 6) p7) (λ (p8 : Bytes).
                  and_then (read_count p8) (λ ((instrs, p9) : ℕ × Bytes).
                    and_then (skip instrs p9) (λ (p10 : Bytes).
                      and_then (read_count p10) (λ ((lines, p11) : ℕ × Bytes).
                        and_then (skip (lines * 8) p11) (λ (p12 : Bytes).
                          and_then (read_count p12) (λ ((assets, p13) : ℕ × Bytes). some (record {
                            version = version;
                            flags = flags;
                            sha256 = sha256;
                            const_count = consts;
                            const_offset = p1;
                            strings = ss;
                            func_count = funcs;
                            func_offset = p5;
                            upvalue_count = upvalues;
                            upvalue_offset = p7;
                            instr_length = instrs;
                            instr_offset = p9;
                            line_count = lines;
                            line_offset = p11;
                            asset_count = assets;
                            asset_offset = p13;
                          }))))))))))))))

unfoldable pub vebc_load : Bytes → Option VebcFile
vebc_load file =
    if ltb (length file) 64
    then none
    else if not (bytes_eq (take 4 file) (0x56 ∷ 0x45 ∷ 0x42 ∷ 0x43 ∷ []))
    then none
    else if not (read_u16_le (drop 4 file) == 1)
    then none
    else load_sections (read_u16_le (drop 4 file)) (read_u16_le (drop 6 file))
        (take 32 (drop 8 file)) (drop 64 file)
