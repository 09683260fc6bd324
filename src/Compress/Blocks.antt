-- ===== src/Compress/Blocks.antt =====
-- The stored blocks that `deflate_stored` of src/stdlib_compress.c writes, one at a time.
use vek.Prelude.{
  ℕ, zero, suc, ◌+◌, ◌-◌, ◌/◌, ◌%◌, ◌^◌, ◌≤◌, ◌<◌, ◌≡◌, refl, sym, ap, ap₂, ◌∙◌, Bool, true, false,
  not, some, Bytes, [], ◌∷◌, ◌++◌, append-nil, append_assoc, length, length-append, length-take,
  length-drop, take, drop, take-append-drop, ltb, lt→ltb, ◌==◌, arith,
}
use vek.Compress.{
  max_block, num_blocks, deflate_total, block_header, block_size_of, stored_block, deflate_loop,
  len_at, extract_loop,
}
use vek.Compress.Inflate.{extract_final, extract_further}

pub take_all : (a b : Bytes) → take (length a) (a ++ b) ≡ a
take_all [] b = refl
take_all (x ∷ a) b = ap (λ r. x ∷ r) (take_all a b)

drop_all : (a b : Bytes) → drop (length a) (a ++ b) ≡ b
drop_all [] b = refl
drop_all (x ∷ a) b = drop_all a b

-- reading back a block that was written
module _ (fuel : ℕ) (block tail : Bytes) (small : length block ≤ 65535) where
  abbrev written : Bool → Bytes
  written final = block_header final (length block) ++ (block ++ tail)

  abbrev framed : Bytes
  framed =
      length block % 256
      ∷ length block / 2 ^ 8 % 256
      ∷ (65535 - length block % 2 ^ 16) % 256
      ∷ (65535 - length block % 2 ^ 16) / 2 ^ 8 % 256
      ∷ (block ++ tail)

  read_len : len_at framed ≡ length block
  read_len = omega arith

  long : ltb (length framed) 4 ≡ false
  long = ground arith

  whole : ltb (length (drop 4 framed)) (len_at framed) ≡ false
  whole = ground (arith, length-append block tail)

  read_block : take (len_at framed) (drop 4 framed) ≡ block
  read_block = ap (λ m. take m (block ++ tail)) read_len ∙ take_all block tail

  extract-last : extract_loop (suc fuel) (written true) ≡ some block
  extract-last = extract_final fuel 1 framed long whole refl ∙ ap some read_block

  extract-more :
      (out : Bytes)
      → extract_loop fuel tail ≡ some out
      → extract_loop (suc fuel) (written false) ≡ some (block ++ out)
  extract-more out e =
      extract_further fuel 0 framed long whole out refl (
        ap (extract_loop fuel) (ap (λ m. drop m (block ++ tail)) read_len ∙ drop_all block tail)
        ∙ e)
      ∙ ap (λ b. some (b ++ out)) read_block

pub take_length : (xs : Bytes) → take (length xs) xs ≡ xs
take_length [] = refl
take_length (x ∷ xs) = ap (λ r. x ∷ r) (take_length xs)

drop_length : (xs : Bytes) → drop (length xs) xs ≡ []
drop_length [] = refl
drop_length (x ∷ xs) = drop_length xs

module _ (fuel data_len src_pos : ℕ) (rest : Bytes) (d : (data_len == 0) ≡ false) where
  loop_round :
      (out : Bytes)
      → ltb 0 (length rest) ≡ true
      → deflate_loop fuel data_len
          (src_pos + block_size_of (length rest))
          (drop (block_size_of (length rest)) rest)
        ≡ some out
      → deflate_loop (suc fuel) data_len src_pos rest ≡ some (stored_block rest ++ out)
  unfolding deflate_loop
  loop_round out l e = rw (deflate_loop, l, d, e) refl

  loop_stops :
      ltb 0 (length rest) ≡ false
      → (src_pos == 0) ≡ false
      → deflate_loop (suc fuel) data_len src_pos rest ≡ some []
  unfolding deflate_loop
  loop_stops l z = rw (deflate_loop, l, z) refl

small_block :
    (rest : Bytes)
    → length rest ≤ 65535
    → stored_block rest ≡ block_header true (length rest) ++ rest
small_block rest h =
    let size : block_size_of (length rest) ≡ length rest = ground arith in
    let last : not (ltb max_block (length rest)) ≡ true = ground arith in
    ap₂ (λ l n. block_header l n ++ take n rest) last size
    ∙ ap (λ r. block_header true (length rest) ++ r) (take_length rest)

large_block :
    (rest : Bytes)
    → 65535 < length rest
    → stored_block rest ≡ block_header false 65535 ++ take 65535 rest
large_block rest h =
    let size : block_size_of (length rest) ≡ 65535 = ground arith in
    let last : not (ltb max_block (length rest)) ≡ false = ground arith in
    ap₂ (λ l n. block_header l n ++ take n rest) last size

-- What a call of the loop gives on a rest that is not empty: its size is the reserved one, and inflating
-- it gives the rest, whatever follows.
pub record Stored (fuel data_len src_pos : ℕ) (rest : Bytes) : Type 0 where
  pub out : Bytes
  pub result : deflate_loop fuel data_len src_pos rest ≡ some out
  pub size : length out ≡ deflate_total (length rest)
  pub back : (tail : Bytes) (f : ℕ) → length out ≤ f → extract_loop f (out ++ tail) ≡ some rest

pub extract_last_block :
    (rest tail : Bytes) (f : ℕ)
    → length rest ≤ 65535
    → 5 ≤ f
    → extract_loop f (block_header true (length rest) ++ (rest ++ tail)) ≡ some rest
extract_last_block rest tail zero small h = absurd (omega arith)
extract_last_block rest tail (suc f) small h = extract-last f rest tail small

pub last_block :
    (fuel data_len src_pos : ℕ) (rest : Bytes)
    → 0 < data_len
    → 0 < length rest
    → length rest ≤ 65535
    → Stored (suc (suc fuel)) data_len src_pos rest
last_block fuel data_len src_pos rest d l small =
    let n = length rest in
    let size : block_size_of n ≡ n = ground arith in
    let stop : deflate_loop (suc fuel) data_len (src_pos + n) [] ≡ some [] =
      loop_stops fuel data_len (src_pos + n) [] (ground arith) refl (ground arith) in
    let next =
      ap (λ m. deflate_loop (suc fuel) data_len (src_pos + m) (drop m rest)) size
      ∙ ap (deflate_loop (suc fuel) data_len (src_pos + n)) (drop_length rest)
      ∙ stop in
    record {
      out = block_header true n ++ rest;
      result =
          loop_round (suc fuel) data_len src_pos rest (ground arith) [] (ground arith) next
          ∙ ap some (append-nil (stored_block rest) ∙ small_block rest small);
      size = ground arith;
      back = λ tail f h. extract_last_block rest tail f small (omega arith);
    }

extract_more_block :
    (block out tail : Bytes) (rest : Bytes) (f : ℕ)
    → length block ≡ 65535
    → ((g : ℕ) → length out ≤ g → extract_loop g (out ++ tail) ≡ some rest)
    → 5 + length out ≤ f
    → extract_loop f (((block_header false 65535 ++ block) ++ out) ++ tail) ≡ some (block ++ rest)
extract_more_block block out tail rest zero size back h = absurd (omega arith)
extract_more_block block out tail rest (suc f) size back h =
    ap (λ r. extract_loop (suc f) (block_header false 65535 ++ r)) (append_assoc block out tail)
    ∙ ap (λ n. extract_loop (suc f) (block_header false n ++ (block ++ (out ++ tail)))) (sym size)
    ∙ extract-more f block (out ++ tail) (omega (arith, size)) rest (back f (omega arith))

nonzero : (n : ℕ) → 0 < n → (n == 0) ≡ false
nonzero n h = ground arith

big_size : (n : ℕ) → 65535 < n → block_size_of n ≡ 65535
big_size n h = ground arith

pub few_blocks : (n : ℕ) → 1 ≤ num_blocks n
few_blocks n = ground arith

pub blocks_step : (n m : ℕ) → 65535 < n → m + 65535 ≡ n → num_blocks n ≡ suc (num_blocks m)
blocks_step n m h e = ground arith

pub further_block :
    (fuel data_len src_pos : ℕ) (rest : Bytes)
    → 0 < data_len
    → 65535 < length rest
    → Stored fuel data_len (src_pos + 65535) (drop 65535 rest)
    → Stored (suc fuel) data_len src_pos rest
further_block fuel data_len src_pos rest d big s =
    let block = take 65535 rest in
    let size = big_size (length rest) big in
    let filled : length block ≡ 65535 = omega (arith, length-take 65535 rest) in
    let left = length-drop 65535 rest in
    record {
      out = (block_header false 65535 ++ block) ++ s.out;
      result =
          loop_round fuel data_len src_pos rest (nonzero data_len d) s.out
            (lt→ltb 0 (length rest) (omega arith))
            (ap (λ m. deflate_loop fuel data_len (src_pos + m) (drop m rest)) size ∙ s.result)
          ∙ ap (λ b. some (b ++ s.out)) (large_block rest big);
      size = omega (
        arith,
        length-append block s.out,
        filled,
        s.size,
        left,
        blocks_step (length rest) (length (drop 65535 rest)) big (omega (arith, left)),
      );
      back = λ tail f h.
          extract_more_block block s.out tail (drop 65535 rest) f filled (s.back tail)
            (omega (arith, h, length-append block s.out, filled))
          ∙ ap some (take-append-drop 65535 rest);
    }
