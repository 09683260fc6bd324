-- ===== src/Compress.antt =====
-- The compression functions of src/stdlib_compress.c. A position in a buffer is the list of the bytes
-- from it to the end, or their number. A loop takes fuel, and `none` means that it has not ended within
-- it; `malloc` succeeds.
pub mod Inflate
pub mod Blocks
pub mod Deflate
pub mod Gzip
mod Tests
use Prim.Native.Nat.{bit_xor}
use vek.Prelude.{
  ℕ, zero, suc, ◌+◌, ◌-◌, ◌*◌, ◌/◌, ◌%◌, ◌^◌, Bool, true, false, not, ◌&&◌, ◌||◌, Option, none,
  some, ◌>>=◌, Bytes, List, [], ◌∷◌, ◌++◌, length, take, drop, get_or, ltb, ◌==◌, if◌then◌else◌,
}

-- one of the eight rounds for an entry of the table
abbrev pub crc32_round : ℕ → ℕ
crc32_round c = if c % 2 == 1 then bit_xor 0xEDB88320 (c / 2) else c / 2

abbrev pub crc32_rounds : ℕ → ℕ → ℕ
crc32_rounds zero c = c
crc32_rounds (suc n) c = crc32_rounds n (crc32_round c)

abbrev pub crc32_table : ℕ → ℕ
crc32_table i = crc32_rounds 8 i

abbrev pub crc32_loop : ℕ → Bytes → ℕ
crc32_loop crc [] = crc
crc32_loop crc (b ∷ bs) = crc32_loop (bit_xor (crc32_table (bit_xor crc b % 256)) (crc / 2 ^ 8)) bs

unfoldable pub crc32_compute : Bytes → ℕ
crc32_compute bytes = bit_xor (crc32_loop 0xFFFFFFFF bytes) 0xFFFFFFFF

-- the length of a stored block is at most this
abbrev pub max_block : ℕ
max_block = 65535

abbrev pub num_blocks : ℕ → ℕ
num_blocks data_len = if data_len == 0 then 1 else (data_len + 65534) / 65535

-- the size of the buffer of `deflate_stored`
abbrev pub deflate_total : ℕ → ℕ
deflate_total data_len = num_blocks data_len * 5 + data_len

-- BFINAL, LEN and NLEN
abbrev pub block_header : Bool → ℕ → Bytes
block_header is_last block_size =
    let nlen = 65535 - block_size % 2 ^ 16 in
    (if is_last then 0x01 else 0x00)
    ∷ block_size % 256
    ∷ block_size / 2 ^ 8 % 256
    ∷ nlen % 256
    ∷ nlen / 2 ^ 8 % 256
    ∷ []

abbrev pub block_size_of : ℕ → ℕ
block_size_of remaining = if ltb max_block remaining then max_block else remaining

-- the block that a round writes, where `rest` is what remains
abbrev pub stored_block : Bytes → Bytes
stored_block rest =
    let block_size = block_size_of (length rest) in
    block_header (not (ltb max_block (length rest))) block_size ++ take block_size rest

unfoldable pub deflate_loop : ℕ → ℕ → ℕ → Bytes → Option Bytes
deflate_loop zero data_len src_pos rest = none
deflate_loop (suc fuel) data_len src_pos rest =
    let block_size = block_size_of (length rest) in
    let more = deflate_loop fuel data_len (src_pos + block_size) (drop block_size rest) in
    if ltb 0 (length rest) || src_pos == 0
    then (if data_len == 0
        then some (stored_block rest)
        else (do out ← more; some (stored_block rest ++ out)))
    else some []

-- at most one round for each block and one to stop
unfoldable pub deflate_stored : Bytes → Option Bytes
deflate_stored bytes = deflate_loop (num_blocks (length bytes) + 1) (length bytes) 0 bytes

-- `data[pos] | (data[pos + 1] << 8)`
abbrev pub len_at : Bytes → ℕ
len_at bytes = get_or bytes 0 0 + 2 ^ 8 * get_or bytes 1 0

-- the first pass: the size of the output
unfoldable pub size_loop : ℕ → Bytes → Option ℕ
size_loop zero bytes = none
size_loop (suc fuel) [] = some 0
size_loop (suc fuel) (header ∷ rest) =
    let len = len_at rest in
    let more = size_loop fuel (drop len (drop 4 rest)) in
    if ltb (length rest) 4
    then some 0
    else (if header % 2 == 1 then some len else (do total ← more; some (len + total)))

-- the second pass: the output
unfoldable pub extract_loop : ℕ → Bytes → Option Bytes
extract_loop zero bytes = none
extract_loop (suc fuel) [] = some []
extract_loop (suc fuel) (header ∷ rest) =
    let len = len_at rest in
    let block = take len (drop 4 rest) in
    let more = extract_loop fuel (drop len (drop 4 rest)) in
    if ltb (length rest) 4 || ltb (length (drop 4 rest)) len
    then some []
    else (if header % 2 == 1 then some block else (do out ← more; some (block ++ out)))

-- the size of the buffer, and what is written to it
unfoldable pub inflate_stored : Bytes → Option (ℕ × Bytes)
inflate_stored bytes = do
  total ← size_loop (length bytes + 1) bytes
  out ← extract_loop (length bytes + 1) bytes
  some (total + 1, out)

abbrev pub u32_le : ℕ → Bytes
u32_le n = n % 256 ∷ n / 2 ^ 8 % 256 ∷ n / 2 ^ 16 % 256 ∷ n / 2 ^ 24 % 256 ∷ []

abbrev pub gzip_header : Bytes
gzip_header = 0x1F ∷ 0x8B ∷ 0x08 ∷ 0x00 ∷ 0x00 ∷ 0x00 ∷ 0x00 ∷ 0x00 ∷ 0x00 ∷ 0xFF ∷ []

abbrev pub gzip_file : Bytes → Bytes → Bytes
gzip_file input deflated =
    gzip_header ++ (deflated ++ (u32_le (crc32_compute input) ++ u32_le (length input % 2 ^ 32)))

-- `obj_string_new(out, (uint32_t)total)`: the length of a string has 32 bits
unfoldable pub string_of : Bytes → Bytes
string_of out = take (length out % 2 ^ 32) out

unfoldable pub gzip : Bytes → Option Bytes
gzip input = do deflated ← deflate_stored input; some (string_of (gzip_file input deflated))

-- the bytes before the first NUL, or to the end
abbrev pub name_length : Bytes → ℕ
name_length [] = 0
name_length (b ∷ bs) = if b == 0 then 0 else suc (name_length bs)

abbrev pub skip_name : Bytes → ℕ → ℕ
skip_name bytes header_end = header_end + name_length (drop header_end bytes) + 1

abbrev pub flag : ℕ → ℕ → Bool
flag flags bit = flags / bit % 2 == 1

-- `none` if the field of FEXTRA is cut off
abbrev pub skip_extra : Bytes → ℕ → ℕ → Option ℕ
skip_extra bytes flags header_end =
    if flag flags 0x04
    then (if ltb (length bytes) (header_end + 2)
        then none
        else some (header_end + 2 + len_at (drop header_end bytes)))
    else some header_end

-- FNAME, FCOMMENT and FHCRC
abbrev pub skip_names : Bytes → ℕ → ℕ → ℕ
skip_names bytes flags header_end =
    let header_end = if flag flags 0x08 then skip_name bytes header_end else header_end in
    let header_end = if flag flags 0x10 then skip_name bytes header_end else header_end in
    if flag flags 0x02 then header_end + 2 else header_end

-- `none` stands for nil, also when the inflation is out of fuel
unfoldable pub gunzip : Bytes → Option Bytes
gunzip bytes =
    if ltb (length bytes) 18
      || not (get_or bytes 0 0 == 0x1F && get_or bytes 1 0 == 0x8B && get_or bytes 2 0 == 0x08)
    then none
    else (do
      extra_end ← skip_extra bytes (get_or bytes 3 0) 10
      let header_end = skip_names bytes (get_or bytes 3 0) extra_end
      if ltb (length bytes) (header_end + 8) then none else (do
        (_, out) ← inflate_stored (take (length bytes - header_end - 8) (drop header_end bytes))
        some out))

-- whether `gzip` stands in the header
abbrev pub accepts_gzip : Bytes → Bool
accepts_gzip [] = false
accepts_gzip (b ∷ bs) =
    let rest = accepts_gzip bs in
    (ltb 2 (length bs)
      && b == 103
      && get_or bs 0 0 == 122
      && get_or bs 1 0 == 105
      && get_or bs 2 0 == 112)
    || rest

pub data Encoding : Type 0 where
  identity : Encoding
  gzip_encoding : Encoding

-- the map of the body and the encoding
unfoldable pub encode_response : Bytes → Bytes → Option (Bytes × Encoding)
encode_response body accept =
    if accepts_gzip accept
    then (do compressed ← gzip body; some (compressed, gzip_encoding))
    else some (body, identity)
