-- ===== src/Compress/Deflate.antt =====
-- What the deflation of src/stdlib_compress.c writes is inflated to the same bytes.
use vek.Prelude.{
  ℕ, zero, suc, ◌+◌, ◌≤◌, ◌<◌, ◌≡◌, refl, sym, ap, ◌∙◌, inl, inr, Bool-cases, some, Bytes, [], ◌∷◌,
  ◌++◌, append-nil, length, length-drop, drop, ltb, ltb→lt, arith,
}
use vek.Compress.{
  max_block, num_blocks, deflate_total, deflate_loop, deflate_stored, extract_loop, inflate_stored,
}
use vek.Compress.Inflate.{inflate_of}
use vek.Compress.Blocks.{
  Stored, extract_last_block, last_block, few_blocks, blocks_step, further_block,
}

stored :
    (fuel data_len src_pos : ℕ) (rest : Bytes)
    → 0 < data_len
    → 0 < length rest
    → num_blocks (length rest) + 1 ≤ fuel
    → Stored fuel data_len src_pos rest
stored zero data_len src_pos rest d l f = absurd (omega arith)
stored (suc zero) data_len src_pos rest d l f = absurd (omega (arith, few_blocks (length rest)))
stored (suc (suc fuel)) data_len src_pos rest d l f =
    elim (Bool-cases (ltb max_block (length rest))) [
      | inl big ↦
          let lt = ltb→lt max_block (length rest) big in
          let left : length (drop 65535 rest) + 65535 ≡ length rest =
            omega (arith, lt, length-drop 65535 rest) in
          further_block (suc fuel) data_len src_pos rest d lt (
            stored (suc fuel) data_len (src_pos + 65535) (drop 65535 rest) d
              (omega (arith, lt, left))
              (omega (arith, blocks_step (length rest) (length (drop 65535 rest)) lt left)))
      | inr small ↦ last_block fuel data_len src_pos rest d l (ground (arith, small))
    ]

pub record Deflated (data_bytes : Bytes) : Type 0 where
  pub out : Bytes
  pub result : deflate_stored data_bytes ≡ some out
  pub size : length out ≡ deflate_total (length data_bytes)
  pub back :
      (tail : Bytes) (f : ℕ) → length out ≤ f → extract_loop f (out ++ tail) ≡ some data_bytes

pub deflated : (data_bytes : Bytes) → Deflated data_bytes
unfolding deflate_stored deflate_loop
deflated [] = record {
  out = 1 ∷ 0 ∷ 0 ∷ 255 ∷ 255 ∷ [];
  result = refl;
  size = refl;
  back = λ tail f h. extract_last_block [] tail f (omega arith) h;
}
deflated (x ∷ xs) =
    let s =
      stored (num_blocks (length (x ∷ xs)) + 1) (length (x ∷ xs)) 0 (x ∷ xs) (omega arith)
        (omega arith) (omega arith) in
    record { out = s.out; result = s.result; size = s.size; back = s.back }

pub inflate-out :
    (data_bytes : Bytes) (d : Deflated data_bytes)
    → (size : ℕ) × (inflate_stored d.out ≡ some (size, data_bytes))
inflate-out data_bytes d = inflate_of d.out data_bytes (
    ap (extract_loop (length d.out + 1)) (sym (append-nil d.out))
    ∙ d.back [] (length d.out + 1) (omega arith))

-- Deflation ends with output of exactly the size that it reserves, and inflating the output gives the
-- bytes back.
pub inflate_stored-deflate_stored :
    (data_bytes : Bytes)
    → (out : Bytes) × (size : ℕ) × (deflate_stored data_bytes ≡ some out)
      × (length out ≡ deflate_total (length data_bytes))
      × (inflate_stored out ≡ some (size, data_bytes))
inflate_stored-deflate_stored data_bytes =
    let d = deflated data_bytes in
    let (size, e) = inflate-out data_bytes d in (d.out, size, d.result, d.size, e)
