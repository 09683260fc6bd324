-- ===== src/Memory.antt =====
-- The allocator of src/memory.c: its statistics and the heap of pages. A pointer is its address, and the
-- address that `malloc` gives for a page is an argument. `malloc` succeeds; `size_t` wraps.
pub mod Blocks
mod Tests
use vek.Prelude.{
  ℕ, ◌+◌, ◌-◌, ◌*◌, ◌/◌, ◌%◌, ◌^◌, Bool, true, false, Option, none, some, List, [], ◌∷◌, ◌++◌, ltb,
  ◌==◌, if◌then◌else◌,
}

abbrev pub size_mod : ℕ
size_mod = 2 ^ 64

pub record MemoryStats : Type 0 where
  pub bytes_allocated : ℕ
  pub total_allocations : ℕ
  pub total_frees : ℕ

-- The new statistics, and whether there is memory: NULL for no bytes.
unfoldable pub vek_alloc : MemoryStats → ℕ → MemoryStats × Bool
vek_alloc stats size = if size == 0 then (stats, false) else (
  record stats {
    bytes_allocated = (stats.bytes_allocated + size) % size_mod;
    total_allocations = (stats.total_allocations + 1) % size_mod;
  },
  true,
)

-- `is_null` says that the pointer is NULL
unfoldable pub vek_realloc : MemoryStats → Bool → ℕ → ℕ → MemoryStats × Bool
vek_realloc stats is_null old_size new_size =
    let bytes = ((stats.bytes_allocated + size_mod - old_size) % size_mod + new_size) % size_mod in
    if new_size == 0
    then (
      record stats { bytes_allocated = bytes; total_frees = (stats.total_frees + 1) % size_mod },
      false,
    )
    else (
      record stats {
        bytes_allocated = bytes;
        total_allocations =
            if is_null then (stats.total_allocations + 1) % size_mod else stats.total_allocations;
      },
      true,
    )

unfoldable pub vek_free : MemoryStats → Bool → ℕ → MemoryStats
vek_free stats is_null size = if is_null then stats else record stats {
  bytes_allocated = (stats.bytes_allocated + size_mod - size) % size_mod;
  total_frees = (stats.total_frees + 1) % size_mod;
}

abbrev pub page_size : ℕ
page_size = 16384

-- `sizeof(Page)` where pointers have 64 bits: two pointers, two sizes, and `full` with its padding
abbrev pub page_header : ℕ
page_header = 40

pub record Page : Type 0 where
  pub data_start : ℕ
  pub used : ℕ
  pub capacity : ℕ
  pub full : Bool

-- at the address that `malloc` gives; the data follow the structure
abbrev pub page_new : ℕ → Page
page_new address = record {
  data_start = address + page_header;
  used = 0;
  capacity = page_size;
  full = false;
}

-- `(size + 15) & ~15`
abbrev pub align : ℕ → ℕ
align size = (size + 15) % size_mod / 16 * 16

-- the page, and the address of the block
unfoldable pub page_alloc : Page → ℕ → Page × Option ℕ
page_alloc page size =
    if ltb page.capacity ((page.used + align size) % size_mod)
    then (record page { full = true }, none)
    else (
      record page { used = (page.used + align size) % size_mod },
      some (page.data_start + page.used),
    )

-- The pages before the current one, and that one.
pub record Heap : Type 0 where
  pub before : List Page
  pub current : Page

abbrev pub heap_init : ℕ → Heap
heap_init address = record { before = []; current = page_new address }

-- A block of the current page, or of a new one, as `page_alloc` gave them. `none` is the exit of the
-- program.
abbrev pub place :
    MemoryStats
    → MemoryStats
    → Heap
    → Page × Option ℕ
    → Page × Option ℕ
    → MemoryStats × (Heap × Option ℕ)
place counted stats heap (page, some block) _ =
    (counted, (record heap { current = page }, some block))
place counted stats heap (page, none) (fresh, some block) =
    (counted, (record { before = heap.before ++ (page ∷ []); current = fresh }, some block))
place counted stats heap (page, none) (fresh, none) =
    (stats, (record { before = heap.before ++ (page ∷ []); current = fresh }, none))

-- `heap_alloc` past the collection that it may start, with the address for a new page
unfoldable pub heap_alloc : MemoryStats → Heap → ℕ → ℕ → MemoryStats × (Heap × Option ℕ)
heap_alloc stats heap size address =
    place (record stats { bytes_allocated = (stats.bytes_allocated + align size) % size_mod }) stats
      heap (page_alloc heap.current (align size)) (page_alloc (page_new address) (align size))
