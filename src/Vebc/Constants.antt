-- ===== src/Vebc/Constants.antt =====
-- The constants of a function in the container: what the writer writes of them, the loader reads.
use vek.Prelude.{
  ℕ, ◌/◌, ◌%◌, ◌^◌, ◌<◌, ◌≡◌, refl, ap, ap₂, ◌∙◌, List, [], ◌∷◌, ◌++◌, append_assoc, map, Bytes,
  length, take, drop, arith, All,
}
use vek.Value.{int_val}
use vek.Vebc.{
  VebcConstant, const_int, const_float, const_string, const_bytes, const_func_ref, write_u32_le,
  write_u64_le, write_constant, write_all,
}
use vek.Vebc.Load.{byte_at, read_u32_le}
use vek.Vebc.Entry.{
  Loaded, value, bytes, nil, read_u64_le, string_at, read_constant, read_constants,
}
use vek.Vebc.RoundTrip.{read_u32_le-write, take-append_self, drop-append_self}

-- what a constant stands for, given the strings of the file
unfoldable pub resolve : List Bytes → VebcConstant → Loaded
unfolding string_at
resolve strings (const_int i) = value (int_val i)
resolve strings (const_float f) = value f
resolve strings (const_string i) = string_at strings i
resolve strings (const_bytes b) = bytes b
resolve strings (const_func_ref i) = nil

-- the payload is in the range of the field that holds it
abbrev pub FitsField : VebcConstant → Type 0
FitsField (const_int i) = i < 2 ^ 64
FitsField (const_float f) = f < 2 ^ 64
FitsField (const_string i) = i < 2 ^ 32
FitsField (const_bytes b) = length b < 2 ^ 32
FitsField (const_func_ref i) = i < 2 ^ 32

read_low : (v : ℕ) (rest : Bytes) → read_u32_le (write_u64_le v ++ rest) ≡ v % 2 ^ 32
unfolding read_u32_le write_u64_le
read_low v rest = omega arith

read_high :
    (v : ℕ) (rest : Bytes) → v < 2 ^ 64 → read_u32_le (drop 4 (write_u64_le v ++ rest)) ≡ v / 2 ^ 32
unfolding read_u32_le write_u64_le
read_high v rest h = omega arith

read_u64_le-write : (v : ℕ) (rest : Bytes) → v < 2 ^ 64 → read_u64_le (write_u64_le v ++ rest) ≡ v
unfolding read_u64_le
read_u64_le-write v rest h = omega (arith, read_low v rest, read_high v rest h)

module _ (strings : List Bytes) where
  read_one :
      (c : VebcConstant) (rest : Bytes)
      → FitsField c
      → read_constant strings
          (byte_at (write_constant c ++ rest) 0)
          (drop 1 (write_constant c ++ rest))
        ≡ (resolve strings c, rest)
  unfolding read_constant write_constant resolve write_u64_le write_u32_le
  read_one (const_int i) rest h = ap (λ n. (value (int_val n), rest)) (read_u64_le-write i rest h)
  read_one (const_float f) rest h = ap (λ n. (value n, rest)) (read_u64_le-write f rest h)
  read_one (const_string i) rest h =
      ap (λ n. (string_at strings n, rest)) (read_u32_le-write i rest h)
  read_one (const_bytes b) rest h =
      ap (λ n. (bytes (take n (b ++ rest)), drop n (b ++ rest)))
        (read_u32_le-write (length b) (b ++ rest) h)
      ∙ ap₂ (λ x y. (bytes x, y)) (take-append_self b rest) (drop-append_self b rest)
  read_one (const_func_ref i) rest h = refl

  pub read_constants-write :
      (cs : List VebcConstant) (rest : Bytes)
      → All FitsField cs
      → read_constants strings (length cs) (write_all write_constant cs ++ rest)
        ≡ map (resolve strings) cs
  unfolding read_constants
  read_constants-write [] rest h = refl
  read_constants-write (c ∷ cs) rest h =
      let more = write_all write_constant cs ++ rest in
      let step = λ (p : Bytes). read_constant strings (byte_at p 0) (drop 1 p) in
      ap (λ p. (step p).0 ∷ read_constants strings (length cs) (step p).1)
        (append_assoc (write_constant c) (write_all write_constant cs) rest)
      ∙ ap (λ (r : Loaded × Bytes). r.0 ∷ read_constants strings (length cs) r.1)
          (read_one c more h.0)
      ∙ ap (λ r. resolve strings c ∷ r) (read_constants-write cs rest h.1)
