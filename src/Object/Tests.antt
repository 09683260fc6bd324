-- ===== src/Object/Tests.antt =====
-- Runs of src/object.c.
use vek.Prelude.{◌≡◌, refl, none, some, [], ◌∷◌}
use vek.Memory.{MemoryStats, vek_realloc, vek_free}
use vek.Chunk.{make_room}
use vek.Object.{obj_list, obj_list_push, obj_list_get, obj_free, free_parts}

abbrev stats : MemoryStats
stats = record { bytes_allocated = 104; total_allocations = 3; total_frees = 1 }

list-grows : obj_list_push stats [] 0 5 ≡ (
  obj_list (5 ∷ []) 8,
  record { bytes_allocated = 168; total_allocations = 4; total_frees = 1 },
)
unfolding obj_list_push make_room vek_realloc
list-grows = refl

list-get : (obj_list_get (5 ∷ []) 0 ≡ some 5) × (obj_list_get (5 ∷ []) 1 ≡ none)
unfolding obj_list_get
list-get = (refl, refl)

-- the array and the list
list-freed :
    obj_free stats (obj_list (5 ∷ []) 8)
    ≡ record { bytes_allocated = 0; total_allocations = 3; total_frees = 3 }
unfolding obj_free free_parts vek_free
list-freed = refl
