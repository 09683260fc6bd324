-- ===== src/Compress/Gzip.antt =====
-- The gzip format of src/stdlib_compress.c, and the encoding of responses with it.
use vek.Prelude.{
  ℕ, ◌+◌, ◌-◌, ◌^◌, ◌%◌, ◌≤◌, ◌<◌, ◌≡◌, refl, ap, ◌∙◌, inl, inr, Bool, Bool-cases, true, false,
  ◌||◌, ◌&&◌, Option, some, Bytes, [], ◌∷◌, ◌++◌, length, length-append, take, drop, get_or, ltb,
  ◌==◌, arith,
}
use vek.Compress.{
  deflate_stored, inflate_stored, gzip_header, gzip_file, string_of, deflate_total, u32_le,
  crc32_compute, gzip, gunzip, accepts_gzip, Encoding, identity, gzip_encoding, encode_response,
}
use vek.Compress.Blocks.{take_length, take_all, few_blocks}
use vek.Compress.Deflate.{Deflated, deflated, inflate-out}

module _ (out trailer : Bytes) (size : length trailer ≡ 8) (enough : 5 ≤ length out) where
  abbrev file : Bytes
  file = gzip_header ++ (out ++ trailer)

  length-file : length file ≡ length out + 18
  length-file = omega (arith, length-append out trailer)

  not_short : ltb (length file) 18 ≡ false
  not_short = ground (arith, length-append out trailer)

  cut_out : take (length file - 10 - 8) (drop 10 file) ≡ out
  cut_out = ap (λ n. take n (out ++ trailer)) (omega (arith, length-file)) ∙ take_all out trailer

  gunzip-file :
      (n : ℕ) (body : Bytes) → inflate_stored out ≡ some (n, body) → gunzip file ≡ some body
  unfolding gunzip
  gunzip-file n body e = rw (gunzip, not_short, cut_out, e) refl

Deflated-long : (body : Bytes) (d : Deflated body) → 5 ≤ length d.out
Deflated-long body d = omega (arith, d.size, few_blocks (length body))

-- Whatever eight bytes follow the deflated body where the checksum and the size should be, `gunzip` gives
-- the body: the trailer is not checked.
pub gunzip-any_trailer :
    (body trailer : Bytes)
    → length trailer ≡ 8
    → (out : Bytes) × (deflate_stored body ≡ some out)
      × (gunzip (gzip_header ++ (out ++ trailer)) ≡ some body)
gunzip-any_trailer body trailer size =
    let d = deflated body in
    let (n, e) = inflate-out body d in
    (d.out, d.result, gunzip-file d.out trailer size (Deflated-long body d) n body e)

string_of-fits : (out : Bytes) → length out < 2 ^ 32 → string_of out ≡ out
unfolding string_of
string_of-fits out h = ap (λ n. take n out) (omega (arith, h)) ∙ take_length out

gunzip-gzip :
    (body : Bytes)
    → deflate_total (length body) + 18 < 2 ^ 32
    → (file : Bytes) × (gzip body ≡ some file) × (gunzip file ≡ some body)
unfolding gzip
gunzip-gzip body small =
    let trailer = u32_le (crc32_compute body) ++ u32_le (length body % 2 ^ 32) in
    let d = deflated body in
    let (n, e) = inflate-out body d in
    let long = Deflated-long body d in
    let total = length-file d.out trailer refl long in
    let fits = string_of-fits (gzip_file body d.out) (omega (arith, total, d.size, small)) in
    (gzip_file body d.out, rw (d.result, fits) refl, gunzip-file d.out trailer refl long n body e)

-- `gzip` stands somewhere in the header
abbrev pub Mentions : Bytes → Type 0
Mentions accept =
    (before : Bytes) × (after : Bytes) × (accept ≡ before ++ (103 ∷ 122 ∷ 105 ∷ 112 ∷ after))

-- the test at one position
abbrev starts : ℕ → Bytes → Bool
starts b bs =
    ltb 2 (length bs)
    && b == 103
    && get_or bs 0 0 == 122
    && get_or bs 1 0 == 105
    && get_or bs 2 0 == 112

starts_of : (b : ℕ) (bs : Bytes) → starts b bs ≡ true → Mentions (b ∷ bs)
starts_of b [] h = cc
starts_of b (x ∷ []) h = cc
starts_of b (x ∷ y ∷ []) h = cc
starts_of b (x ∷ y ∷ z ∷ after) h =
    let at_0 : b ≡ 103 = ground (arith, h) in
    let at_1 : x ≡ 122 = ground (arith, h) in
    let at_2 : y ≡ 105 = ground (arith, h) in
    let at_3 : z ≡ 112 = ground (arith, h) in ([], after, rw (at_0, at_1, at_2, at_3) refl)

accepts_of : (accept : Bytes) → accepts_gzip accept ≡ true → Mentions accept
accepts_of [] h = cc
accepts_of (b ∷ bs) h = elim (Bool-cases (accepts_gzip bs)) [
  | inl later ↦
      let (before, after, e) = accepts_of bs later in (b ∷ before, after, ap (λ r. b ∷ r) e)
  | inr over ↦ starts_of b bs (or_left (starts b bs) (accepts_gzip bs) h over)
]
  where
    or_left : (p q : Bool) → (p || q) ≡ true → q ≡ false → p ≡ true
    or_left true q h e = refl
    or_left false q h e = cc

accepts_mention :
    (before after : Bytes) → accepts_gzip (before ++ (103 ∷ 122 ∷ 105 ∷ 112 ∷ after)) ≡ true
accepts_mention [] after = ground arith
accepts_mention (b ∷ bs) after = ground (arith, accepts_mention bs after)

-- what a client makes of a body and its encoding
unfoldable pub decode : Encoding → Bytes → Option Bytes
decode identity sent = some sent
decode gzip_encoding sent = gunzip sent

abbrev pub Chosen : Bytes → Encoding → Type 0
Chosen accept identity = ¬ Mentions accept
Chosen accept gzip_encoding = Mentions accept

-- A response is encoded with gzip exactly if the header mentions it, and decoding what is sent by the
-- encoding that is sent gives the body. The length of the compressed body, which is 18 more than what
-- deflation reserves for the body, has to fit 32 bits.
pub decode-encode_response :
    (body accept : Bytes)
    → deflate_total (length body) + 18 < 2 ^ 32
    → (sent : Bytes) × (encoding : Encoding) × (encode_response body accept ≡ some (sent, encoding))
      × (decode encoding sent ≡ some body)
      × Chosen accept encoding
unfolding encode_response decode
decode-encode_response body accept small = elim (Bool-cases (accepts_gzip accept)) [
  | inl yes' ↦
      let (file, e, back) = gunzip-gzip body small in
      (file, gzip_encoding, rw (yes', e) refl, back, accepts_of accept yes')
  | inr no' ↦ (
    body,
    identity,
    rw no' refl,
    refl,
    λ (before, after, e). cc (ap accepts_gzip e, accepts_mention before after, no'),
  )
]
