-- ===== src/Gc.antt =====
-- The collector of src/gc.c with the roots of src/vm.c. The tracked objects are a list in the order of
-- their tracking, and an address that no tracked object has stands for memory that the collector does
-- not own, where it does nothing. The gray stack has its top first. Growing an array succeeds.
pub mod Marks
pub mod References
pub mod Grown
pub mod Trace
pub mod Sweep
pub mod Collect
pub mod Dangling
pub mod Pins
mod Tests
use vek.Prelude.{
  ℕ, zero, suc, ◌+◌, ◌-◌, ◌*◌, ◌%◌, ◌^◌, ◌&&◌, ◌>>=◌, take, set, get_or, Bool, true, false, Option,
  none, some, List, [], ◌∷◌, ◌++◌, length, ltb, ◌==◌, if◌then◌else◌,
}
use vek.Value.{is_ptr, value_as_ptr}
use vek.Memory.{MemoryStats}
use vek.ObjMap.{Slot, empty, tombstone, live, ObjMap}
use vek.Chunk.{Chunk}
use vek.Intern.{InternTable, intern_table_remove_unmarked}
use vek.Object.{
  Kind, obj_string, obj_list, obj_map, obj_bytes, obj_function, obj_closure, obj_upvalue,
  obj_native, obj_bound_method, Object, obj_free,
}

abbrev pub Objects : Type 0
Objects = List Object

-- the object at an address
abbrev pub find : Objects → ℕ → Option Object
find [] address = none
find (o ∷ os) address = if o.address == address then some o else find os address

-- `obj->flags |= OBJ_FLAG_MARK`
abbrev pub set_mark : Objects → ℕ → Objects
set_mark [] address = []
set_mark (o ∷ os) address =
    let rest = set_mark os address in
    if o.address == address then record o { marked = true } ∷ os else o ∷ rest

-- the objects that marking writes, and the gray stack
pub record Marking : Type 0 where
  pub heap : Objects
  pub gray : List ℕ

abbrev pub mark_found : Marking → ℕ → Option Object → Marking
mark_found m address none = m
mark_found m address (some o) =
    if o.marked then m else record { heap = set_mark m.heap address; gray = address ∷ m.gray }

unfoldable pub gc_mark_object : Marking → ℕ → Marking
gc_mark_object m address = if address == 0 then m else mark_found m address (find m.heap address)

unfoldable pub gc_mark_value : Marking → ℕ → Marking
gc_mark_value m value = if is_ptr value then gc_mark_object m (value_as_ptr value) else m

unfoldable pub mark_values : Marking → List ℕ → Marking
mark_values m [] = m
mark_values m (v ∷ vs) = mark_values (gc_mark_value m v) vs

unfoldable pub mark_objects : Marking → List ℕ → Marking
mark_objects m [] = m
mark_objects m (a ∷ as') = mark_objects (gc_mark_object m a) as'

unfoldable pub mark_entries : Marking → List (Slot ℕ) → Marking
mark_entries m [] = m
mark_entries m (empty ∷ es) = mark_entries m es
mark_entries m (tombstone ∷ es) = mark_entries m es
mark_entries m (live key value ∷ es) = mark_entries (gc_mark_value (gc_mark_object m key) value) es

unfoldable pub gc_trace_object : Marking → Kind → Marking
gc_trace_object m (obj_string data_bytes) = m
gc_trace_object m (obj_bytes data_bytes) = m
gc_trace_object m (obj_function arity count chunk name) =
    mark_values (gc_mark_object m name) chunk.constants
gc_trace_object m (obj_list items capacity) = mark_values m items
gc_trace_object m (obj_map map) = mark_entries m map.entries
gc_trace_object m (obj_closure fn upvalues) = mark_values (gc_mark_object m fn) upvalues
gc_trace_object m (obj_upvalue closed) = gc_mark_value m closed
gc_trace_object m obj_native = m
gc_trace_object m (obj_bound_method receiver) = gc_mark_value m receiver

-- the objects on the gray stack are tracked
abbrev pub trace_found : Marking → Option Object → Marking
trace_found m none = m
trace_found m (some o) = gc_trace_object m o.kind

-- `none` when the fuel is out
unfoldable pub gc_trace_references : ℕ → Marking → Option Marking
gc_trace_references zero m = elim m.gray [ [] ↦ some m | a ∷ gray ↦ none ]
gc_trace_references (suc fuel) m = elim m.gray [
  | [] ↦ some m
  | a ∷ gray ↦ gc_trace_references fuel (trace_found (record m { gray = gray }) (find m.heap a))
]

-- The roots that the machine holds; `globals` and a frame's closure may be NULL.
pub record VmRoots : Type 0 where
  pub stack : List ℕ
  pub closures : List ℕ
  pub globals : ℕ
  pub open_upvalues : List ℕ

unfoldable pub vm_mark_roots : VmRoots → Marking → Marking
vm_mark_roots vm m =
    let m = mark_values m vm.stack in
    let m = mark_objects m vm.closures in
    let m = gc_mark_object m vm.globals in mark_objects m vm.open_upvalues

-- Without the gray stack, which is empty outside a collection, and the capacities.
pub record Gc : Type 0 where
  pub tracked : Objects
  pub roots : List ℕ
  pub pinned_objects : List ℕ
  pub next_gc : ℕ
  pub enabled : Bool

-- the gray stack is empty outside a collection
abbrev pub no_gray : Objects → Marking
no_gray heap = record { heap = heap; gray = [] }

unfoldable pub gc_mark_roots : Gc → VmRoots → Marking
gc_mark_roots gc vm =
    let m = mark_objects (no_gray gc.tracked) gc.pinned_objects in
    let m = mark_values m gc.roots in vm_mark_roots vm m

-- whether the string at an address is marked
abbrev pub is_marked : Objects → ℕ → Bool
is_marked heap address = elim (find heap address) [ none ↦ false | some o ↦ o.marked ]

unfoldable pub gc_sweep : MemoryStats → Objects → Objects × MemoryStats
gc_sweep stats [] = ([], stats)
gc_sweep stats (o ∷ os) =
    let (rest, stats) = gc_sweep (if o.marked then stats else obj_free stats o.kind) os in
    (if o.marked then record o { marked = false } ∷ rest else rest, stats)

abbrev pub initial_threshold : ℕ
initial_threshold = 1024 * 256

abbrev pub threshold : ℕ → ℕ
threshold alive =
    let next_gc = alive * 4 % 2 ^ 64 in
    if ltb next_gc initial_threshold then initial_threshold else next_gc

-- All that a collection reads and writes.
pub record World : Type 0 where
  pub gc : Gc
  pub vm : VmRoots
  pub interned : InternTable
  pub stats : MemoryStats

unfoldable pub finish : World → Objects → World
finish w heap =
    let interned = intern_table_remove_unmarked (is_marked heap) w.interned in
    let (tracked, stats) = gc_sweep w.stats heap in
    record w {
      gc = record (w.gc) { tracked = tracked; next_gc = threshold stats.bytes_allocated };
      interned = interned;
      stats = stats;
    }

-- The fuel is the number of tracked objects, for each of which the gray stack is popped once.
unfoldable pub gc_collect : World → Option World
gc_collect w =
    let m = gc_mark_roots w.gc w.vm in
    if w.gc.enabled
    then (do m ← gc_trace_references (length w.gc.tracked) m; some (finish w m.heap))
    else some w

unfoldable pub gc_maybe_collect : World → Option World
gc_maybe_collect w =
    if w.gc.enabled && ltb w.gc.next_gc w.stats.bytes_allocated then gc_collect w else some w

abbrev pub gc_init : Gc
gc_init = record {
  tracked = [];
  roots = [];
  pinned_objects = [];
  next_gc = initial_threshold;
  enabled = true;
}

unfoldable pub gc_track_object : Gc → Object → Gc
gc_track_object gc obj = record gc { tracked = gc.tracked ++ obj ∷ [] }

-- The top of the roots is the end of the list.
unfoldable pub gc_push_root : Gc → ℕ → Gc
gc_push_root gc value = record gc { roots = gc.roots ++ value ∷ [] }

-- `none` is the failed assertion
unfoldable pub gc_pop_root : Gc → Option Gc
gc_pop_root gc =
    if ltb 0 (length gc.roots)
    then some (record gc { roots = take (length gc.roots - 1) gc.roots })
    else none

abbrev pub set_pin : Bool → Objects → ℕ → Objects
set_pin pin [] address = []
set_pin pin (o ∷ os) address =
    let rest = set_pin pin os address in
    if o.address == address then record o { pinned = pin } ∷ os else o ∷ rest

unfoldable pub vm_pin : Gc → ℕ → Gc
vm_pin gc obj = if obj == 0 then gc else record gc {
  tracked = set_pin true gc.tracked obj;
  pinned_objects = gc.pinned_objects ++ obj ∷ [];
}

-- the index of the first occurrence
abbrev pub index_of : List ℕ → ℕ → Option ℕ
index_of [] obj = none
index_of (a ∷ as') obj =
    let rest = index_of as' obj in
    if a == obj then some 0 else elim rest [ none ↦ none | some i ↦ some (suc i) ]

-- `pinned_objects[i] = pinned_objects[--pinned_count]`
abbrev pub swap_last : List ℕ → ℕ → List ℕ
swap_last xs i = let count = length xs - 1 in take count (set xs i (get_or xs count 0))

unfoldable pub vm_unpin : Gc → ℕ → Gc
vm_unpin gc obj = if obj == 0 then gc else record gc {
  tracked = set_pin false gc.tracked obj;
  pinned_objects = elim (index_of gc.pinned_objects obj) [
    | none ↦ gc.pinned_objects
    | some i ↦ swap_last gc.pinned_objects i
  ];
}

unfoldable pub free_all : MemoryStats → Objects → MemoryStats
free_all stats [] = stats
free_all stats (o ∷ os) = free_all (obj_free stats o.kind) os

-- `obj_free` of all objects, which are read no more
unfoldable pub gc_destroy : MemoryStats → Gc → Gc × MemoryStats
unfolding free_all
gc_destroy stats gc =
    (record gc { tracked = []; roots = []; pinned_objects = [] }, free_all stats gc.tracked)
