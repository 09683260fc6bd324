-- ===== src/Chunk/Owned.antt =====
-- What the chunks of src/chunk.c own: the arrays have room, every byte has its line, and the bytes that
-- the statistics count for a chunk are given back when it is freed.
use vek.Prelude.{
  suc, ℕ, ◌+◌, ◌-◌, ◌*◌, ◌%◌, ◌^◌, ◌≤◌, ◌<◌, ◌≡◌, inl, inr, subst, ==_iff, Bool-cases, Bool, false,
  [], ◌∷◌, length, length-append, leb, ◌==◌, arith,
}
use vek.Memory.{MemoryStats, vek_realloc}
use vek.Chunk.{
  Chunk, grow_capacity, make_room, chunk_write, chunk_add_constant, free_array, chunk_free,
}

-- the capacity that an array of `count` elements has grown to at most
abbrev pub most : ℕ → ℕ
most count = 8 + 2 * (count - 5)

-- the arrays have room and are at most about twice as large as needed, and the lines go with the bytes
pub record IsChunk (chunk : Chunk) : Type 0 where
  pub code : length chunk.code ≤ chunk.capacity
  pub constants : length chunk.constants ≤ chunk.const_capacity
  pub lines : length chunk.lines ≤ chunk.line_capacity
  pub code_cap : chunk.capacity ≤ most (length chunk.code)
  pub constants_cap : chunk.const_capacity ≤ most (length chunk.constants)
  pub lines_cap : chunk.line_capacity ≤ most (length chunk.lines)
  pub paired : length chunk.lines ≡ length chunk.code

-- the bytes of the three arrays
abbrev pub owned : Chunk → ℕ
owned chunk = chunk.capacity + 8 * chunk.const_capacity + 4 * chunk.line_capacity

-- the counter, which wraps at 2 ^ 64, stands `bytes` above `base`
abbrev pub Accounts : ℕ → MemoryStats → ℕ → Type 0
Accounts base stats bytes = stats.bytes_allocated ≡ (base + bytes) % 2 ^ 64

swap_bytes :
    (base old new rest bytes : ℕ)
    → old < 2 ^ 64
    → bytes ≡ (base + (old + rest)) % 2 ^ 64
    → ((bytes + 2 ^ 64 - old) % 2 ^ 64 + new) % 2 ^ 64 ≡ (base + (new + rest)) % 2 ^ 64
swap_bytes base old new rest bytes h e = omega arith

realloc-Accounts :
    (base old new rest : ℕ) (stats : MemoryStats) (null : Bool)
    → old < 2 ^ 64
    → Accounts base stats (old + rest)
    → Accounts base (vek_realloc stats null old new).0 (new + rest)
unfolding vek_realloc
realloc-Accounts base old new rest stats null h a = elim (Bool-cases (new == 0)) [
  | inl e ↦ rw e (swap_bytes base old new rest stats.bytes_allocated h a)
  | inr e ↦ rw e (swap_bytes base old new rest stats.bytes_allocated h a)
]

-- how `make_room` keeps the account of an array among `rest` other bytes, and makes the room
record Roomy (base width count rest : ℕ) (made : ℕ × MemoryStats) : Type 0 where
  room : count < made.0
  tight : made.0 ≤ most (suc count)
  account : Accounts base made.1 (width * made.0 + rest)

make_room-Roomy :
    (base width count capacity rest : ℕ) (stats : MemoryStats)
    → count ≤ capacity
    → capacity ≤ most count
    → width * capacity < 2 ^ 64
    → Accounts base stats (width * capacity + rest)
    → Roomy base width count rest (make_room width count capacity stats)
unfolding make_room
make_room-Roomy base width count capacity rest stats h t k a =
    elim (Bool-cases (leb capacity count)) [
      | inl e ↦ rw e (record {
        room = ground arith;
        tight = ground arith;
        account =
            realloc-Accounts base (width * capacity) (width * grow_capacity capacity) rest stats
              (capacity == 0) k a;
      })
      | inr e ↦ rw e (record { room = ground arith; tight = ground arith; account = a })
    ]

-- a chunk to which another byte and constant can be added with no `int` overflowing
abbrev pub IsSmall : Chunk → Type 0
IsSmall chunk = (length chunk.code < 2 ^ 30) × (length chunk.constants < 2 ^ 30)

-- the counts and capacities fit an `int`
pub record FitsInt (chunk : Chunk) : Type 0 where
  pub code : (length chunk.code < 2 ^ 31) × (chunk.capacity < 2 ^ 31)
  pub constants : (length chunk.constants < 2 ^ 31) × (chunk.const_capacity < 2 ^ 31)
  pub lines : (length chunk.lines < 2 ^ 31) × (chunk.line_capacity < 2 ^ 31)

pub IsChunk-FitsInt :
    (chunk : Chunk)
    → IsChunk chunk
    → length chunk.code ≤ 2 ^ 30
    → length chunk.constants ≤ 2 ^ 30
    → FitsInt chunk
IsChunk-FitsInt chunk v h k = record {
  code = (omega arith, omega (arith, v.code_cap));
  constants = (omega arith, omega (arith, v.constants_cap));
  lines = (omega (arith, v.paired), omega (arith, v.lines_cap, v.paired));
}

-- A chunk with its account, which an operation keeps.
pub record IsKept (base : ℕ) (chunk : Chunk) (stats : MemoryStats) : Type 0 where
  pub valid : IsChunk chunk
  pub account : Accounts base stats (owned chunk)

pub chunk_write-IsKept :
    (base : ℕ) (stats : MemoryStats) (chunk : Chunk) (byte line : ℕ)
    → IsSmall chunk
    → IsKept base chunk stats
    → IsKept base (chunk_write stats chunk byte line).0 (chunk_write stats chunk byte line).1
unfolding chunk_write
chunk_write-IsKept base stats chunk byte line s k =
    let v = k.valid in
    let made = make_room 1 (length chunk.code) chunk.capacity stats in
    let r =
      make_room-Roomy base 1 (length chunk.code) chunk.capacity
        (8 * chunk.const_capacity + 4 * chunk.line_capacity) stats v.code v.code_cap
        (omega (arith, s.0, v.code_cap)) (omega (arith, k.account)) in
    let l =
      make_room-Roomy base 4 (length chunk.lines) chunk.line_capacity
        (made.0 + 8 * chunk.const_capacity) made.1 v.lines v.lines_cap
        (omega (arith, s.0, v.lines_cap, v.paired)) (omega (arith, r.account)) in
    let longer = length-append chunk.code (byte ∷ []) in
    let more_lines = length-append chunk.lines (line ∷ []) in
    record {
      valid = record {
        code = omega (arith, r.room, longer);
        constants = v.constants;
        lines = omega (arith, l.room, more_lines);
        code_cap = omega (arith, r.tight, longer);
        constants_cap = v.constants_cap;
        lines_cap = omega (arith, l.tight, more_lines);
        paired = omega (arith, v.paired, longer, more_lines);
      };
      account = omega (arith, l.account);
    }

pub chunk_add_constant-IsKept :
    (base : ℕ) (stats : MemoryStats) (chunk : Chunk) (value : ℕ)
    → IsSmall chunk
    → IsKept base chunk stats
    → IsKept base (chunk_add_constant stats chunk value).0 (chunk_add_constant stats chunk value).2
unfolding chunk_add_constant
chunk_add_constant-IsKept base stats chunk value s k =
    let v = k.valid in
    let r =
      make_room-Roomy base 8 (length chunk.constants) chunk.const_capacity
        (chunk.capacity + 4 * chunk.line_capacity) stats v.constants v.constants_cap
        (omega (arith, s.1, v.constants_cap)) (omega (arith, k.account)) in
    let longer = length-append chunk.constants (value ∷ []) in
    record {
      valid = record {
        code = v.code;
        constants = omega (arith, r.room, longer);
        lines = v.lines;
        code_cap = v.code_cap;
        constants_cap = omega (arith, r.tight, longer);
        lines_cap = v.lines_cap;
        paired = v.paired;
      };
      account = omega (arith, r.account);
    }

free_array-Accounts :
    (base width capacity rest : ℕ) (stats : MemoryStats)
    → width * capacity < 2 ^ 64
    → Accounts base stats (width * capacity + rest)
    → Accounts base (free_array stats width capacity) rest
free_array-Accounts base width capacity rest stats h a = elim (Bool-cases (capacity == 0)) [
  | inl e ↦ rw e (
      omega
        (arith, subst (λ c. Accounts base stats (width * c + rest)) ((==_iff capacity 0).0 e) a))
  | inr e ↦ rw e (omega (arith, realloc-Accounts base (width * capacity) 0 rest stats false h a))
]

pub chunk_free-Accounts :
    (base : ℕ) (stats : MemoryStats) (chunk : Chunk)
    → FitsInt chunk
    → IsKept base chunk stats
    → Accounts base (chunk_free stats chunk).1 0
unfolding chunk_free
chunk_free-Accounts base stats chunk fits k =
    let first = free_array stats 1 chunk.capacity in
    let second = free_array first 8 chunk.const_capacity in
    free_array-Accounts base 4 chunk.line_capacity 0 second (omega (arith, fits.lines.1)) (
      free_array-Accounts base 8 chunk.const_capacity (4 * chunk.line_capacity + 0) first
        (omega (arith, fits.constants.1))
        (free_array-Accounts base 1 chunk.capacity
          (8 * chunk.const_capacity + (4 * chunk.line_capacity + 0)) stats
          (omega (arith, fits.code.1)) (omega (arith, k.account))))
