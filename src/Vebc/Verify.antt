-- ===== src/Vebc/Verify.antt =====
-- `vebc_verify` of src/vebc_loader.c with the hash of src/sha256.c.
use vek.Prelude.{suc, ◌≡◌, refl, true, false, some, Bytes, length, ltb, arith, bytes_eq_self}
use vek.Sha256.{sha256_compute}
use vek.Vebc.{VebcBuilder, write_u16_le, write_sections, vebc_builder_write}
use vek.Vebc.Load.{VebcFile, vebc_load}
use vek.Vebc.Entry.{vebc_verify}
use vek.Vebc.RoundTrip.{
  IsWritable, file_of, behind, drop-sections, length-behind, vebc_load-vebc_builder_write,
}

length-sha256_compute : (input : Bytes) → length (sha256_compute input) ≡ 32
unfolding sha256_compute
length-sha256_compute input = refl

-- The file that the writer makes with SHA-256 is loaded, and the loaded file passes the check of its hash.
pub vebc_verify-vebc_builder_write :
    (b : VebcBuilder)
    → IsWritable b
    → (file : VebcFile) × (vebc_load (vebc_builder_write sha256_compute b) ≡ some file)
      × (vebc_verify sha256_compute (vebc_builder_write sha256_compute b) file ≡ true)
unfolding vebc_verify vebc_builder_write write_u16_le
vebc_verify-vebc_builder_write b w =
    let sections = write_sections b in
    let hash = sha256_compute sections in
    let sized = length-sha256_compute sections in
    let long : ltb
          (suc (suc (suc (suc (suc (suc (suc (suc (length (behind hash sections sized)))))))))) 64
        ≡ false =
      ground (arith, length-behind hash sections sized) in
    (
      file_of b hash,
      vebc_load-vebc_builder_write sha256_compute b sized w,
      rw (long, drop-sections hash sections sized, bytes_eq_self hash) refl,
    )
