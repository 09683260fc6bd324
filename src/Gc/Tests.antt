-- ===== src/Gc/Tests.antt =====
-- Runs of src/gc.c. A list at 16 holds a string at 32; a second list at 48 and a string at 64 are not
-- reachable, although the list holds itself.
use vek.Prelude.{ℕ, ◌≡◌, refl, ◌↔◌, false, some, List, [], ◌∷◌, All, arith, ◌>>=◌}
use vek.Value.{ptr_val, int_val}
use vek.Intern.{intern_table_remove_unmarked, remove_loop, Entry, empty, tombstone, string}
use vek.Object.{obj_free, Kind, obj_string, obj_list, Object}
use vek.Gc.{
  Objects, gc_init, World, gc_collect, gc_mark_roots, vm_mark_roots, mark_objects, mark_values,
  gc_mark_value, gc_mark_object, gc_trace_references, gc_trace_object, finish, gc_sweep,
  gc_maybe_collect, vm_pin, vm_unpin,
}
use vek.Gc.Marks.{kind_at, is_marked_clean}
use vek.Gc.Collect.{IsReady, Live, gc_collect-Live}
use vek.Gc.Dangling.{IsTracked, IsSound, gc_collect-IsSound, tracked_of, kinds_of}
use vek.Gc.Pins.{pinned_survives}
use vek.Gc.References.{references}

abbrev object : ℕ → Kind → Object
object address kind = record { address = address; marked = false; pinned = false; kind = kind }

abbrev heap : Objects
heap =
    object 16 (obj_list (ptr_val 32 ∷ int_val 7 ∷ []) 8)
    ∷ object 32 (obj_string (104 ∷ []))
    ∷ object 48 (obj_list (ptr_val 48 ∷ ptr_val 32 ∷ []) 8)
    ∷ object 64 (obj_string (105 ∷ []))
    ∷ []

abbrev world : World
world = record {
  gc = record gc_init { tracked = heap; roots = ptr_val 16 ∷ [] };
  vm = record { stack = int_val 1 ∷ []; closures = 0 ∷ []; globals = 0; open_upvalues = [] };
  interned = record {
    entries = string 32 (104 ∷ []) ∷ empty ∷ string 64 (105 ∷ []) ∷ empty ∷ [];
    count = 2;
    capacity = 4;
  };
  stats = record { bytes_allocated = 1000; total_allocations = 6; total_frees = 0 };
}

abbrev kept : Objects
kept = object 16 (obj_list (ptr_val 32 ∷ int_val 7 ∷ []) 8) ∷ object 32 (obj_string (104 ∷ [])) ∷ []

IsReady-world : IsReady world
IsReady-world = record { heap = ground arith; clean = is_marked_clean heap (ground arith) }

pointers : (a : ℕ) (k : Kind) → kind_at heap a ≡ some k → All (IsTracked heap) (references k)
pointers = kinds_of (λ k. All (IsTracked heap) (references k)) heap (ground arith)

IsSound-world : IsSound world
IsSound-world = record {
  ready = IsReady-world;
  roots = tracked_of heap (16 ∷ 0 ∷ 0 ∷ []) (ground arith);
  refs = λ a b k e. tracked_of heap (references k) (pointers a k e) b;
  interned = ground arith;
}

abbrev after : World → Objects × List Entry × ℕ
after w = (w.gc.tracked, w.interned.entries, w.interned.count)

collected_heap :
    (gc_collect world >>= λ w. some (after w))
    ≡ some (kept, string 32 (104 ∷ []) ∷ empty ∷ tombstone ∷ empty ∷ [], 1)
unfolding gc_collect gc_mark_roots vm_mark_roots mark_objects mark_values gc_mark_value
    gc_mark_object gc_trace_references gc_trace_object finish gc_sweep obj_free
    intern_table_remove_unmarked remove_loop
collected_heap = refl

not_due : gc_maybe_collect world ≡ some world
unfolding gc_maybe_collect
not_due = refl

gc_collect-Live_example :
    (w' : World) × (gc_collect world ≡ some w')
    × ((a : ℕ) (k : Kind)
        → (kind_at w'.gc.tracked a ≡ some k) ↔ ((kind_at heap a ≡ some k) × Live world a))
    × IsReady w'
gc_collect-Live_example = gc_collect-Live world IsReady-world refl

gc_collect-IsSound_example :
    ((w' : World) × (gc_collect world ≡ some w') × IsSound w')
    × ((w' : World) × (gc_maybe_collect world ≡ some w') × IsSound w')
gc_collect-IsSound_example = gc_collect-IsSound world IsSound-world

pinned_survives_example :
    (w' : World) × (gc_collect (record world { gc = vm_unpin (vm_pin world.gc 64) 48 }) ≡ some w')
    × (kind_at w'.gc.tracked 64 ≡ some (obj_string (105 ∷ [])))
pinned_survives_example =
    pinned_survives world 64 48 (obj_string (105 ∷ [])) IsReady-world refl refl (ground arith)
      (ground arith)
