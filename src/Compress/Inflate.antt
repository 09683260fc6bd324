-- ===== src/Compress/Inflate.antt =====
-- The inflation of src/stdlib_compress.c on any input.
use vek.Prelude.{
  ℕ, zero, suc, ◌+◌, ◌%◌, ◌≤◌, ◌<◌, ◌≡◌, refl, inl, inr, Bool-cases, true, false, some, Bytes, [],
  ◌∷◌, ◌++◌, length, length-append, length-take, length-drop, take, drop, ltb, ◌==◌, arith,
}
use vek.Compress.{len_at, size_loop, extract_loop, inflate_stored}

-- Both passes end, and what the second writes fits into what the first counts.
record Passes (fuel : ℕ) (bytes : Bytes) : Type 0 where
  total : ℕ
  out : Bytes
  sized : size_loop fuel bytes ≡ some total
  extracted : extract_loop fuel bytes ≡ some out
  fits : length out ≤ total

-- a round, given the rest of the passes
module _ (fuel header : ℕ) (rest : Bytes) where
  abbrev block : Bytes
  block = take (len_at rest) (drop 4 rest)

  abbrev after : Bytes
  after = drop (len_at rest) (drop 4 rest)

  block-le : length block ≤ len_at rest
  block-le = omega (arith, length-take (len_at rest) (drop 4 rest))

  last_round :
      ltb (length rest) 4 ≡ false → (header % 2 == 1) ≡ true → Passes (suc fuel) (header ∷ rest)
  unfolding size_loop extract_loop
  last_round long final = elim (Bool-cases (ltb (length (drop 4 rest)) (len_at rest))) [
    | inl cut ↦ record {
      total = len_at rest;
      out = [];
      sized = rw (size_loop, long, final) refl;
      extracted = rw (extract_loop, long, cut) refl;
      fits = omega arith;
    }
    | inr whole ↦ record {
      total = len_at rest;
      out = block;
      sized = rw (size_loop, long, final) refl;
      extracted = rw (extract_loop, long, whole, final) refl;
      fits = block-le;
    }
  ]

  further_round :
      Passes fuel after
      → ltb (length rest) 4 ≡ false
      → (header % 2 == 1) ≡ false
      → Passes (suc fuel) (header ∷ rest)
  unfolding size_loop extract_loop
  further_round p long more = elim (Bool-cases (ltb (length (drop 4 rest)) (len_at rest))) [
    | inl cut ↦ record {
      total = len_at rest + p.total;
      out = [];
      sized = rw (size_loop, long, more, p.sized) refl;
      extracted = rw (extract_loop, long, cut) refl;
      fits = omega arith;
    }
    | inr whole ↦ record {
      total = len_at rest + p.total;
      out = block ++ p.out;
      sized = rw (size_loop, long, more, p.sized) refl;
      extracted = rw (extract_loop, long, whole, more, p.extracted) refl;
      fits = omega (arith, length-append block p.out, block-le, p.fits);
    }
  ]

passes : (fuel : ℕ) (bytes : Bytes) → length bytes < fuel → Passes fuel bytes
unfolding size_loop extract_loop
passes zero bytes h = absurd (omega arith)
passes (suc fuel) [] h = record {
  total = 0;
  out = [];
  sized = refl;
  extracted = refl;
  fits = omega arith;
}
passes (suc fuel) (header ∷ rest) h =
    let p =
      passes fuel (drop (len_at rest) (drop 4 rest))
        (omega (arith, length-drop (len_at rest) (drop 4 rest), length-drop 4 rest)) in
    elim (Bool-cases (ltb (length rest) 4)) [
      | inl short ↦ record {
        total = 0;
        out = [];
        sized = rw (size_loop, short) refl;
        extracted = rw (extract_loop, short) refl;
        fits = omega arith;
      }
      | inr long ↦ elim (Bool-cases (header % 2 == 1)) [
        | inl final ↦ last_round fuel header rest long final
        | inr more ↦ further_round fuel header rest p long more
      ]
    ]

-- Inflation ends on any input, truncated or not, and never writes more than the buffer that the first
-- pass sized.
pub inflate_stored-fits :
    (bytes : Bytes)
    → (size : ℕ) × (out : Bytes) × (inflate_stored bytes ≡ some (size, out)) × (length out < size)
unfolding inflate_stored
inflate_stored-fits bytes =
    let p = passes (length bytes + 1) bytes (omega arith) in
    (p.total + 1, p.out, rw (p.sized, p.extracted) refl, omega (arith, p.fits))

-- the output is that of the second pass
pub inflate_of :
    (bytes out : Bytes)
    → extract_loop (length bytes + 1) bytes ≡ some out
    → (size : ℕ) × (inflate_stored bytes ≡ some (size, out))
unfolding inflate_stored
inflate_of bytes out e =
    let p = passes (length bytes + 1) bytes (omega arith) in (p.total + 1, rw (p.sized, e) refl)

-- a round on a block that is whole
module _ (fuel header : ℕ) (rest : Bytes) (long : ltb (length rest) 4 ≡ false)
    (whole : ltb (length (drop 4 rest)) (len_at rest) ≡ false) where
  pub extract_final :
      (header % 2 == 1) ≡ true
      → extract_loop (suc fuel) (header ∷ rest) ≡ some (take (len_at rest) (drop 4 rest))
  unfolding extract_loop
  extract_final final = rw (extract_loop, long, whole, final) refl

  pub extract_further :
      (out : Bytes)
      → (header % 2 == 1) ≡ false
      → extract_loop fuel (drop (len_at rest) (drop 4 rest)) ≡ some out
      → extract_loop (suc fuel) (header ∷ rest) ≡ some (take (len_at rest) (drop 4 rest) ++ out)
  unfolding extract_loop
  extract_further out more e = rw (extract_loop, long, whole, more, e) refl
