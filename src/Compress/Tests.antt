-- ===== src/Compress/Tests.antt =====
-- Runs of src/stdlib_compress.c.
use vek.Prelude.{arith, ℕ, ◌<◌, ◌≡◌, refl, none, some, Bytes, [], ◌∷◌, ◌++◌, length}
use vek.Compress.{
  crc32_compute, deflate_stored, deflate_loop, deflate_total, inflate_stored, size_loop,
  extract_loop, gunzip, gzip_header, Encoding, encode_response,
}
use vek.Compress.Inflate.{inflate_stored-fits}
use vek.Compress.Deflate.{inflate_stored-deflate_stored}
use vek.Compress.Gzip.{gunzip-any_trailer, decode, Chosen, decode-encode_response}

-- the check value of CRC-32, of the bytes "123456789"
crc-check : crc32_compute (49 ∷ 50 ∷ 51 ∷ 52 ∷ 53 ∷ 54 ∷ 55 ∷ 56 ∷ 57 ∷ []) ≡ 0xCBF43926
unfolding crc32_compute
crc-check = refl

abbrev hi : Bytes
hi = 104 ∷ 105 ∷ []

deflate-hi : deflate_stored hi ≡ some (1 ∷ 2 ∷ 0 ∷ 253 ∷ 255 ∷ 104 ∷ 105 ∷ [])
unfolding deflate_stored deflate_loop
deflate-hi = refl

-- a block whose data is cut off is dropped
inflate-cut : inflate_stored (1 ∷ 2 ∷ 0 ∷ 253 ∷ 255 ∷ 104 ∷ []) ≡ some (3, [])
unfolding inflate_stored size_loop extract_loop
inflate-cut = refl

gunzip-short : gunzip (0x1F ∷ 0x8B ∷ 0x08 ∷ []) ≡ none
unfolding gunzip
gunzip-short = refl

inflate_stored-fits_example :
    (size : ℕ) × (out : Bytes) × (inflate_stored hi ≡ some (size, out)) × (length out < size)
inflate_stored-fits_example = inflate_stored-fits hi

inflate_stored-deflate_stored_example :
    (out : Bytes) × (size : ℕ) × (deflate_stored hi ≡ some out)
    × (length out ≡ deflate_total (length hi))
    × (inflate_stored out ≡ some (size, hi))
inflate_stored-deflate_stored_example = inflate_stored-deflate_stored hi

gunzip-any_trailer_example :
    (out : Bytes) × (deflate_stored hi ≡ some out)
    × (gunzip (gzip_header ++ (out ++ (1 ∷ 2 ∷ 3 ∷ 4 ∷ 5 ∷ 6 ∷ 7 ∷ 8 ∷ []))) ≡ some hi)
gunzip-any_trailer_example = gunzip-any_trailer hi (1 ∷ 2 ∷ 3 ∷ 4 ∷ 5 ∷ 6 ∷ 7 ∷ 8 ∷ []) refl

decode-encode_response_example :
    (sent : Bytes) × (encoding : Encoding) × (encode_response hi (103 ∷ 122 ∷ 105 ∷ 112 ∷ [])
      ≡ some (sent, encoding))
    × (decode encoding sent ≡ some hi)
    × Chosen (103 ∷ 122 ∷ 105 ∷ 112 ∷ []) encoding
decode-encode_response_example =
    decode-encode_response hi (103 ∷ 122 ∷ 105 ∷ 112 ∷ []) (omega arith)
