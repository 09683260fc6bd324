-- ===== src/Chunk/Tests.antt =====
-- Runs of src/chunk.c.
use vek.Prelude.{◌≡◌, refl, List, [], ◌∷◌, arith}
use vek.Memory.{MemoryStats, vek_realloc}
use vek.Chunk.{Chunk, make_room, chunk_write, chunk_add_constant, chunk_free}
use vek.Chunk.Owned.{IsChunk, FitsInt}
use vek.Chunk.Life.{Edit, write, constant, edit, edits, Holds, chunk_free-IsChunk}

abbrev stats : MemoryStats
stats = record { bytes_allocated = 100; total_allocations = 3; total_frees = 1 }

-- the first one last
abbrev script : List Edit
script = write 27 2 ∷ constant 9 ∷ write 0 1 ∷ []

abbrev made : Chunk
made = record {
  code = 0 ∷ 27 ∷ [];
  capacity = 8;
  constants = 9 ∷ [];
  const_capacity = 8;
  lines = 1 ∷ 2 ∷ [];
  line_capacity = 8;
}

edits-script : edits script stats ≡ record {
  chunk = made;
  stats = record { bytes_allocated = 204; total_allocations = 6; total_frees = 1 };
  indexes = (0, 9) ∷ [];
}
unfolding edits edit chunk_write chunk_add_constant make_room vek_realloc
edits-script = refl

chunk_free-IsChunk_example :
    Holds script (edits script stats)
    × IsChunk (edits script stats).chunk
    × FitsInt (edits script stats).chunk
    × ((chunk_free (edits script stats).stats (edits script stats).chunk).1.bytes_allocated ≡ 100)
chunk_free-IsChunk_example = chunk_free-IsChunk stats script (omega arith) (omega arith)
