-- ===== src/Memory/Tests.antt =====
-- The theorems on src/memory.c at single requests.
use vek.Prelude.{ℕ, ◌≡◌, some, refl, arith}
use vek.Memory.{MemoryStats, Heap, heap_init, page_alloc, heap_alloc}
use vek.Memory.Blocks.{page_new-IsPage, IsAllocated, heap_alloc-IsAllocated}

abbrev stats : MemoryStats
stats = record { bytes_allocated = 10; total_allocations = 1; total_frees = 0 }

first_block : (heap_alloc stats (heap_init 4096) 20 32768).1.1 ≡ some 4136
unfolding heap_alloc page_alloc
first_block = refl

heap_alloc-IsAllocated_example :
    (stats' : MemoryStats) × (heap' : Heap) × (block : ℕ) × (heap_alloc stats
        (heap_init 4096)
        20
        32768
      ≡ (stats', (heap', some block)))
    × IsAllocated (heap_init 4096) heap' 20 32768 block
heap_alloc-IsAllocated_example =
    heap_alloc-IsAllocated stats (heap_init 4096) 20 32768 (page_new-IsPage 4096 refl) (omega arith)
      refl
