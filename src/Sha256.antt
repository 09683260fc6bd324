-- ===== src/Sha256.antt =====
-- The hash of src/sha256.c, with 32-bit words as numbers below 2 ^ 32. `calloc` succeeds.
mod Tests
use Prim.Native.Nat.{bit_and, bit_or, bit_xor}
use vek.Prelude.{
  ℕ, zero, suc, ◌+◌, ◌-◌, ◌*◌, ◌/◌, ◌%◌, ◌^◌, Bytes, List, [], ◌∷◌, ◌++◌, length, drop, get_or,
  replicate,
}

abbrev pub sha256_k : List ℕ
sha256_k =
    0x428a2f98 ∷ 0x71374491 ∷ 0xb5c0fbcf ∷ 0xe9b5dba5 ∷ 0x3956c25b ∷ 0x59f111f1 ∷ 0x923f82a4
    ∷ 0xab1c5ed5 ∷ 0xd807aa98 ∷ 0x12835b01 ∷ 0x243185be ∷ 0x550c7dc3 ∷ 0x72be5d74 ∷ 0x80deb1fe
    ∷ 0x9bdc06a7 ∷ 0xc19bf174 ∷ 0xe49b69c1 ∷ 0xefbe4786 ∷ 0x0fc19dc6 ∷ 0x240ca1cc ∷ 0x2de92c6f
    ∷ 0x4a7484aa ∷ 0x5cb0a9dc ∷ 0x76f988da ∷ 0x983e5152 ∷ 0xa831c66d ∷ 0xb00327c8 ∷ 0xbf597fc7
    ∷ 0xc6e00bf3 ∷ 0xd5a79147 ∷ 0x06ca6351 ∷ 0x14292967 ∷ 0x27b70a85 ∷ 0x2e1b2138 ∷ 0x4d2c6dfc
    ∷ 0x53380d13 ∷ 0x650a7354 ∷ 0x766a0abb ∷ 0x81c2c92e ∷ 0x92722c85 ∷ 0xa2bfe8a1 ∷ 0xa81a664b
    ∷ 0xc24b8b70 ∷ 0xc76c51a3 ∷ 0xd192e819 ∷ 0xd6990624 ∷ 0xf40e3585 ∷ 0x106aa070 ∷ 0x19a4c116
    ∷ 0x1e376c08 ∷ 0x2748774c ∷ 0x34b0bcb5 ∷ 0x391c0cb3 ∷ 0x4ed8aa4a ∷ 0x5b9cca4f ∷ 0x682e6ff3
    ∷ 0x748f82ee ∷ 0x78a5636f ∷ 0x84c87814 ∷ 0x8cc70208 ∷ 0x90befffa ∷ 0xa4506ceb ∷ 0xbef9a3f7
    ∷ 0xc67178f2 ∷ []

abbrev pub word_mod : ℕ
word_mod = 2 ^ 32

abbrev pub add_words : ℕ → ℕ → ℕ
add_words x y = (x + y) % word_mod

abbrev pub rotr : ℕ → ℕ → ℕ
rotr x n = bit_or (x / 2 ^ n) (x * 2 ^ (32 - n) % word_mod)

-- `~x` is `2 ^ 32 - 1 - x`
abbrev pub ch : ℕ → ℕ → ℕ → ℕ
ch x y z = bit_xor (bit_and x y) (bit_and (word_mod - 1 - x) z)

abbrev pub maj : ℕ → ℕ → ℕ → ℕ
maj x y z = bit_xor (bit_xor (bit_and x y) (bit_and x z)) (bit_and y z)

abbrev pub ep0 : ℕ → ℕ
ep0 x = bit_xor (bit_xor (rotr x 2) (rotr x 13)) (rotr x 22)

abbrev pub ep1 : ℕ → ℕ
ep1 x = bit_xor (bit_xor (rotr x 6) (rotr x 11)) (rotr x 25)

abbrev pub sig0 : ℕ → ℕ
sig0 x = bit_xor (bit_xor (rotr x 7) (rotr x 18)) (x / 2 ^ 3)

abbrev pub sig1 : ℕ → ℕ
sig1 x = bit_xor (bit_xor (rotr x 17) (rotr x 19)) (x / 2 ^ 10)

-- the array `h`, and the variables `a` to `hh`
pub record Words : Type 0 where
  pub a : ℕ
  pub b : ℕ
  pub c : ℕ
  pub d : ℕ
  pub e : ℕ
  pub f : ℕ
  pub g : ℕ
  pub hh : ℕ

abbrev pub initial : Words
initial = record {
  a = 0x6a09e667;
  b = 0xbb67ae85;
  c = 0x3c6ef372;
  d = 0xa54ff53a;
  e = 0x510e527f;
  f = 0x9b05688c;
  g = 0x1f83d9ab;
  hh = 0x5be0cd19;
}

abbrev pub padded_len : ℕ → ℕ
padded_len len = ((len + 8) / 64 + 1) * 64

-- the eight bytes of the length in bits, the high one first
abbrev pub length_bytes : ℕ → Bytes
length_bytes bit_len =
    bit_len / 2 ^ 56 % 256
    ∷ bit_len / 2 ^ 48 % 256
    ∷ bit_len / 2 ^ 40 % 256
    ∷ bit_len / 2 ^ 32 % 256
    ∷ bit_len / 2 ^ 24 % 256
    ∷ bit_len / 2 ^ 16 % 256
    ∷ bit_len / 2 ^ 8 % 256
    ∷ bit_len % 256
    ∷ []

unfoldable pub pad : Bytes → Bytes
pad input =
    let len = length input in
    input ++ 0x80 ∷ (replicate (padded_len len - len - 9) 0 ++ length_bytes (len * 8 % 2 ^ 64))

-- the word at a byte of the message
abbrev pub word_at : Bytes → ℕ
word_at msg =
    get_or msg 0 0 * 2 ^ 24 + get_or msg 1 0 * 2 ^ 16 + get_or msg 2 0 * 2 ^ 8 + get_or msg 3 0

-- the first words of `w`
abbrev pub message_words : ℕ → Bytes → List ℕ
message_words zero msg = []
message_words (suc n) msg = word_at msg ∷ message_words n (drop 4 msg)

-- the next word of `w`
abbrev pub next_word : List ℕ → ℕ
next_word w =
    let i = length w in
    (sig1 (get_or w (i - 2) 0)
      + get_or w (i - 7) 0
      + sig0 (get_or w (i - 15) 0)
      + get_or w (i - 16) 0)
    % word_mod

abbrev pub extend_words : ℕ → List ℕ → List ℕ
extend_words zero w = w
extend_words (suc n) w = extend_words n (w ++ next_word w ∷ [])

abbrev pub round : Words → ℕ → ℕ → Words
round s k w =
    let t1 = (s.hh + ep1 s.e + ch s.e s.f s.g + k + w) % word_mod in
    let t2 = (ep0 s.a + maj s.a s.b s.c) % word_mod in
    record {
      a = add_words t1 t2;
      b = s.a;
      c = s.b;
      d = s.c;
      e = add_words s.d t1;
      f = s.e;
      g = s.f;
      hh = s.g;
    }

abbrev pub rounds : Words → List ℕ → List ℕ → Words
rounds s (k ∷ ks) (w ∷ ws) = rounds (round s k w) ks ws
rounds s _ _ = s

abbrev pub add_state : Words → Words → Words
add_state h s = record {
  a = add_words h.a s.a;
  b = add_words h.b s.b;
  c = add_words h.c s.c;
  d = add_words h.d s.d;
  e = add_words h.e s.e;
  f = add_words h.f s.f;
  g = add_words h.g s.g;
  hh = add_words h.hh s.hh;
}

unfoldable pub compress : Words → Bytes → Words
compress h msg = add_state h (rounds h sha256_k (extend_words 48 (message_words 16 msg)))

-- the loop over the blocks
unfoldable pub blocks : ℕ → Words → Bytes → Words
blocks zero h msg = h
blocks (suc n) h msg = blocks n (compress h msg) (drop 64 msg)

abbrev pub word_bytes : ℕ → Bytes
word_bytes x = x / 2 ^ 24 % 256 ∷ x / 2 ^ 16 % 256 ∷ x / 2 ^ 8 % 256 ∷ x % 256 ∷ []

abbrev pub digest : Words → Bytes
digest h =
    word_bytes h.a
    ++ (word_bytes h.b
        ++ (word_bytes h.c
            ++ (word_bytes h.d
                ++ (word_bytes h.e ++ (word_bytes h.f ++ (word_bytes h.g ++ word_bytes h.hh))))))

unfoldable pub sha256_compute : Bytes → Bytes
sha256_compute input = digest (blocks (padded_len (length input) / 64) initial (pad input))
