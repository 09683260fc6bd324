-- ===== src/Chunk.antt =====
-- The chunks of src/chunk.c: a function's code with a line for each byte, and its constants, in arrays
-- that grow. The counts are the lengths of the lists, an array of capacity 0 is NULL, and the
-- statistics are those of src/memory.c. An `int` is a number: a chunk is written to at most 2 ^ 30 times,
-- so that none overflows.
pub mod Owned
pub mod Life
mod Tests
use vek.Prelude.{
  ℕ, ◌+◌, ◌*◌, false, Bytes, List, [], ◌∷◌, ◌++◌, length, ltb, leb, ◌==◌, if◌then◌else◌,
}
use vek.Memory.{MemoryStats, vek_realloc}

pub record Chunk : Type 0 where
  pub code : Bytes
  pub capacity : ℕ
  pub constants : List ℕ
  pub const_capacity : ℕ
  pub lines : List ℕ
  pub line_capacity : ℕ

abbrev pub chunk_init : Chunk
chunk_init = record {
  code = [];
  capacity = 0;
  constants = [];
  const_capacity = 0;
  lines = [];
  line_capacity = 0;
}

abbrev pub grow_capacity : ℕ → ℕ
grow_capacity capacity = if ltb capacity 8 then 8 else capacity * 2

-- The capacity, and the statistics, once the array has room for one more: `GROW_ARRAY` on elements of
-- `width` bytes.
unfoldable pub make_room : ℕ → ℕ → ℕ → MemoryStats → ℕ × MemoryStats
make_room width count capacity stats =
    if leb capacity count
    then (
      grow_capacity capacity,
      (vek_realloc stats (capacity == 0) (width * capacity) (width * grow_capacity capacity)).0,
    )
    else (capacity, stats)

unfoldable pub chunk_write : MemoryStats → Chunk → ℕ → ℕ → Chunk × MemoryStats
chunk_write stats chunk byte line =
    let (capacity, stats) = make_room 1 (length chunk.code) chunk.capacity stats in
    let (line_capacity, stats) = make_room 4 (length chunk.lines) chunk.line_capacity stats in
    (
      record chunk {
        code = chunk.code ++ byte ∷ [];
        capacity = capacity;
        lines = chunk.lines ++ line ∷ [];
        line_capacity = line_capacity;
      },
      stats,
    )

-- and the index of the constant
unfoldable pub chunk_add_constant : MemoryStats → Chunk → ℕ → Chunk × ℕ × MemoryStats
chunk_add_constant stats chunk value =
    let (capacity, stats) = make_room 8 (length chunk.constants) chunk.const_capacity stats in
    (
      record chunk { constants = chunk.constants ++ value ∷ []; const_capacity = capacity },
      length chunk.constants,
      stats,
    )

-- `FREE_ARRAY`, behind the test that there is one
abbrev pub free_array : MemoryStats → ℕ → ℕ → MemoryStats
free_array stats width capacity =
    if capacity == 0 then stats else (vek_realloc stats false (width * capacity) 0).0

unfoldable pub chunk_free : MemoryStats → Chunk → Chunk × MemoryStats
chunk_free stats chunk =
    let stats = free_array stats 1 chunk.capacity in
    let stats = free_array stats 8 chunk.const_capacity in
    (chunk_init, free_array stats 4 chunk.line_capacity)
