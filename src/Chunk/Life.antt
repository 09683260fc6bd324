-- ===== src/Chunk/Life.antt =====
-- The life of a chunk of src/chunk.c: it is made, written by the compiler or the loader, and freed.
use vek.Prelude.{
  suc, sym, ◌∙◌, ap₂, ℕ, ◌+◌, ◌^◌, ◌≤◌, ◌<◌, ◌≡◌, refl, ap, List, [], ◌∷◌, ◌++◌, length,
  length-append, Bytes, arith,
}
use vek.Memory.{MemoryStats}
use vek.Chunk.{Chunk, chunk_init, chunk_write, chunk_add_constant, chunk_free}
use vek.Chunk.Owned.{
  IsChunk, FitsInt, IsChunk-FitsInt, Accounts, IsKept, chunk_write-IsKept,
  chunk_add_constant-IsKept, chunk_free-Accounts,
}

-- one call of `chunk_write`, with a byte and a line, or of `chunk_add_constant`
pub data Edit : Type 0 where
  write : ℕ → ℕ → Edit
  constant : ℕ → Edit

-- The chunk and the statistics after some calls, and the indexes that `chunk_add_constant` returned with
-- the constants that they were returned for.
pub record Edited : Type 0 where
  pub chunk : Chunk
  pub stats : MemoryStats
  pub indexes : List (ℕ × ℕ)

unfoldable pub edit : Edit → Edited → Edited
edit (write byte line) made =
    let (chunk, stats) = chunk_write made.stats made.chunk byte line in
    record made { chunk = chunk; stats = stats }
edit (constant value) made =
    let (chunk, index, stats) = chunk_add_constant made.stats made.chunk value in
    record { chunk = chunk; stats = stats; indexes = made.indexes ++ (index, value) ∷ [] }

-- the edits, the first one last
unfoldable pub edits : List Edit → MemoryStats → Edited
edits [] stats = record { chunk = chunk_init; stats = stats; indexes = [] }
edits (e ∷ es) stats = edit e (edits es stats)

-- the bytes, the lines and the constants that the edits write
abbrev pub written : List Edit → Bytes
written [] = []
written (write byte line ∷ es) = written es ++ byte ∷ []
written (constant value ∷ es) = written es

abbrev pub written_lines : List Edit → List ℕ
written_lines [] = []
written_lines (write byte line ∷ es) = written_lines es ++ line ∷ []
written_lines (constant value ∷ es) = written_lines es

abbrev pub added : List Edit → List ℕ
added [] = []
added (write byte line ∷ es) = added es
added (constant value ∷ es) = added es ++ value ∷ []

-- the constants with their positions, from a first position on
abbrev pub numbered : ℕ → List ℕ → List (ℕ × ℕ)
numbered i [] = []
numbered i (v ∷ vs) = (i, v) ∷ numbered (suc i) vs

-- The chunk holds what the edits write, and the index that was returned for a constant is its position.
pub record Holds (es : List Edit) (made : Edited) : Type 0 where
  pub code : made.chunk.code ≡ written es
  pub lines : made.chunk.lines ≡ written_lines es
  pub constants : made.chunk.constants ≡ added es
  pub indexes : made.indexes ≡ numbered 0 (added es)

numbered-snoc :
    (i : ℕ) (vs : List ℕ) (v : ℕ)
    → numbered i (vs ++ v ∷ []) ≡ numbered i vs ++ (i + length vs, v) ∷ []
numbered-snoc i [] v = ap (λ n. (n, v) ∷ []) (omega arith)
numbered-snoc i (x ∷ xs) v =
    ap (λ r. (i, x) ∷ r)
      (numbered-snoc (suc i) xs v ∙ ap (λ n. numbered (suc i) xs ++ (n, v) ∷ []) (omega arith))

edits-Holds : (es : List Edit) (stats : MemoryStats) → Holds es (edits es stats)
unfolding edits edit chunk_write chunk_add_constant
edits-Holds [] stats = record { code = refl; lines = refl; constants = refl; indexes = refl }
edits-Holds (write byte line ∷ es) stats =
    let h = edits-Holds es stats in
    record {
      code = ap (λ c. c ++ byte ∷ []) h.code;
      lines = ap (λ c. c ++ line ∷ []) h.lines;
      constants = h.constants;
      indexes = h.indexes;
    }
edits-Holds (constant value ∷ es) stats =
    let h = edits-Holds es stats in
    let position : length (edits es stats).chunk.constants ≡ 0 + length (added es) =
      omega (arith, ap length h.constants) in
    record {
      code = h.code;
      lines = h.lines;
      constants = ap (λ c. c ++ value ∷ []) h.constants;
      indexes =
          ap₂ (λ is n. is ++ (n, value) ∷ []) h.indexes position
          ∙ sym (numbered-snoc 0 (added es) value);
    }

record Lived (base : ℕ) (es : List Edit) (made : Edited) : Type 0 where
  kept : IsKept base made.chunk made.stats
  size : length made.chunk.code + length made.chunk.constants ≤ length es

edits-Lived :
    (base : ℕ) (es : List Edit) (stats : MemoryStats)
    → length es ≤ 2 ^ 30
    → Accounts base stats 0
    → Lived base es (edits es stats)
unfolding edits edit chunk_write chunk_add_constant
edits-Lived base [] stats h a = record {
  kept = record {
    valid = record {
      code = omega arith;
      constants = omega arith;
      lines = omega arith;
      code_cap = omega arith;
      constants_cap = omega arith;
      lines_cap = omega arith;
      paired = refl;
    };
    account = a;
  };
  size = omega arith;
}
edits-Lived base (write byte line ∷ es) stats h a =
    let l = edits-Lived base es stats (omega arith) a in
    let made = edits es stats in
    record {
      kept =
          chunk_write-IsKept base made.stats made.chunk byte line
            (omega (arith, l.size), omega (arith, l.size)) l.kept;
      size = omega (arith, l.size, length-append made.chunk.code (byte ∷ []));
    }
edits-Lived base (constant value ∷ es) stats h a =
    let l = edits-Lived base es stats (omega arith) a in
    let made = edits es stats in
    record {
      kept =
          chunk_add_constant-IsKept base made.stats made.chunk value
            (omega (arith, l.size), omega (arith, l.size)) l.kept;
      size = omega (arith, l.size, length-append made.chunk.constants (value ∷ []));
    }

-- A chunk that was made, written to at most 2 ^ 30 times and freed holds, before it is freed, the bytes, their
-- lines and the constants in the order of their writing; the index that was returned for a constant is its
-- position; there is one line for each byte and room in every array, and no count or capacity overflows an
-- `int`. Freeing the chunk brings the counter of allocated bytes back to what it was before the first write.
pub chunk_free-IsChunk :
    (stats : MemoryStats) (es : List Edit)
    → length es ≤ 2 ^ 30
    → stats.bytes_allocated < 2 ^ 64
    → Holds es (edits es stats)
      × IsChunk (edits es stats).chunk
      × FitsInt (edits es stats).chunk
      × ((chunk_free (edits es stats).stats (edits es stats).chunk).1.bytes_allocated
          ≡ stats.bytes_allocated)
chunk_free-IsChunk stats es h b =
    let base = stats.bytes_allocated in
    let l = edits-Lived base es stats h (omega arith) in
    let made = edits es stats in
    let fits =
      IsChunk-FitsInt made.chunk l.kept.valid (omega (arith, l.size)) (omega (arith, l.size)) in
    (
      edits-Holds es stats,
      l.kept.valid,
      fits,
      omega (arith, chunk_free-Accounts base made.stats made.chunk fits l.kept),
    )
