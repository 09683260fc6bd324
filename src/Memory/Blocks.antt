-- ===== src/Memory/Blocks.antt =====
-- The blocks that src/memory.c hands out.
use vek.Prelude.{
  ℕ, ◌+◌, ◌%◌, ◌≤◌, ◌<◌, true, false, Bool-cases, ◌≡◌, ◌≢◌, refl, ap, ap₂, ◌⊎◌, inl, inr, Option,
  none, some, [], ◌∷◌, ◌++◌, ltb, arith,
}
use vek.Memory.{
  MemoryStats, Page, Heap, page_alloc, heap_alloc, place, page_new, page_size, page_header, align,
  size_mod, vek_alloc, vek_free,
}

-- A page is filled up to a multiple of 16 within its memory. Its memory starts 8 bytes past one: `malloc`
-- gives a multiple of 16, and the structure in front has 40 bytes.
pub record IsPage (page : Page) : Type 0 where
  pub sized : page.capacity ≡ page_size
  pub within : page.used ≤ page_size
  pub rounded : page.used % 16 ≡ 0
  pub based : page.data_start % 16 ≡ 8

-- A block of `size` bytes in the used part of a page, at an address that is 8 more than a multiple of 16.
pub record IsBlock (page' : Page) (size address : ℕ) : Type 0 where
  pub page : IsPage page'
  pub start : address % 16 ≡ 8
  pub above : page'.data_start ≤ address
  pub inside : address + size ≤ page'.data_start + page'.used

page_alloc-fits :
    (page : Page) (size : ℕ)
    → IsPage page
    → size ≤ page_size
    → ltb page.capacity ((page.used + align size) % size_mod) ≡ false
    → (page_alloc page size
        ≡ (record page { used = page.used + align size }, some (page.data_start + page.used)))
      × IsBlock (record page { used = page.used + align size }) size (page.data_start + page.used)
unfolding page_alloc
page_alloc-fits page size v small e =
    let sum : (page.used + align size) % size_mod ≡ page.used + align size =
      omega (arith, v.within, small) in
    let room : page.used + align size ≤ page_size = ground (arith, v.sized, sum, e) in
    (
      rw (e, sum) refl,
      record {
        page = record {
          sized = v.sized;
          within = room;
          rounded = omega (arith, v.rounded);
          based = v.based;
        };
        start = omega (arith, v.rounded, v.based);
        above = omega arith;
        inside = omega (arith, small);
      },
    )

page_alloc-full :
    (page : Page) (size : ℕ)
    → ltb page.capacity ((page.used + align size) % size_mod) ≡ true
    → page_alloc page size ≡ (record page { full = true }, none)
unfolding page_alloc
page_alloc-full page size e = rw e refl

align-align : (size : ℕ) → size ≤ page_size → align (align size) ≡ align size
align-align size small = omega (arith, small)

align_small : (size : ℕ) → size ≤ page_size → (size ≤ align size) × (align size ≤ page_size)
align_small size small = (omega (arith, small), omega (arith, small))

pub page_new-IsPage : (address : ℕ) → address % 16 ≡ 0 → IsPage (page_new address)
page_new-IsPage address h = record {
  sized = refl;
  within = omega arith;
  rounded = refl;
  based = omega (arith, h);
}

-- the heap after an allocation, and the block: behind the used part of the old page, or at the start of a new one
pub record IsAllocated (heap heap' : Heap) (size fresh block : ℕ) : Type 0 where
  pub block_of : IsBlock heap'.current size block
  pub placed :
      ((heap'.before ≡ heap.before)
        × (heap'.current.data_start ≡ heap.current.data_start)
        × (block ≡ heap.current.data_start + heap.current.used))
      ⊎ ((heap'.before ≡ heap.before ++ (record heap.current { full = true } ∷ []))
          × (heap'.current.data_start ≡ fresh + page_header)
          × (block ≡ fresh + page_header))

IsBlock-smaller :
    (page : Page) (size block : ℕ)
    → size ≤ page_size
    → IsBlock page (align size) block
    → IsBlock page size block
IsBlock-smaller page size block small b = record {
  page = b.page;
  start = b.start;
  above = b.above;
  inside = omega (arith, b.inside, (align_small size small).0);
}

-- Where `malloc` gives multiples of 16 for pages, and the current page is valid, an object of at most a page
-- is always allocated: its block lies in the used part of the current page, and starts where the used part of
-- that page ended before, or in a new page; the current page stays valid and within its memory. The block's
-- address is 8 more than a multiple of 16.
pub heap_alloc-IsAllocated :
    (stats : MemoryStats) (heap : Heap) (size fresh : ℕ)
    → IsPage heap.current
    → size ≤ page_size
    → fresh % 16 ≡ 0
    → (stats' : MemoryStats) × (heap' : Heap) × (block : ℕ) × (heap_alloc stats heap size fresh
        ≡ (stats', (heap', some block)))
      × IsAllocated heap heap' size fresh block
unfolding heap_alloc
heap_alloc-IsAllocated stats heap size fresh v small malloc_aligned =
    let le = (align_small size small).1 in
    let counted : MemoryStats = record stats {
      bytes_allocated = (stats.bytes_allocated + align size) % size_mod;
    } in
    elim (Bool-cases
      (ltb heap.current.capacity ((heap.current.used + align (align size)) % size_mod))) [
        | inl e ↦
            let (run, b) =
              page_alloc-fits (page_new fresh) (align size) (page_new-IsPage fresh malloc_aligned)
                le (ground (arith, le)) in
            (
              counted,
              _,
              _,
              ap₂ (place counted stats heap) (page_alloc-full heap.current (align size) e) run,
              record {
                block_of = IsBlock-smaller _ size _ small b;
                placed = inr (refl, refl, omega arith);
              },
            )
        | inr e ↦
            let (run, b) = page_alloc-fits heap.current (align size) v le e in
            (
              counted,
              _,
              heap.current.data_start + heap.current.used,
              ap
                  (λ (r : Page × Option ℕ).
                    place counted stats heap r (page_alloc (page_new fresh) (align size)))
                  run,
              record {
                block_of = IsBlock-smaller _ size _ small b;
                placed = inl (refl, refl, refl);
              },
            )
      ]

-- Freeing what was allocated gives the number of allocated bytes back.
pub vek_free-vek_alloc :
    (stats : MemoryStats) (size : ℕ)
    → stats.bytes_allocated < size_mod
    → size < size_mod
    → size ≢ 0
    → (vek_free (vek_alloc stats size).0 false size).bytes_allocated ≡ stats.bytes_allocated
unfolding vek_free vek_alloc
vek_free-vek_alloc stats size lt small ne = ground (arith, lt, small, ne)
