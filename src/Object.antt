-- ===== src/Object.antt =====
-- The heap objects of src/object.h and src/vm.h, and how src/object.c makes and frees them. An address
-- is a number, 0 is NULL, and a value is its 64 bits as in src/value.h.
mod Tests
use vek.Prelude.{
  ℕ, suc, ◌+◌, ◌*◌, ◌≡◌, Bool, true, false, Option, none, some, Bytes, List, [], ◌∷◌, ◌++◌, length,
  get_elem?, replicate, leb, ◌==◌, if◌then◌else◌,
}
use vek.Value.{val_nil}
use vek.Memory.{MemoryStats, vek_alloc, vek_free}
use vek.ObjMap.{ObjMap}
use vek.Chunk.{Chunk, chunk_init, chunk_free, make_room}

-- `type`, with what the object of that type holds: a function its arity, number of upvalues, chunk and
-- name, a closure its function and upvalues, an upvalue its closed value, a bound method its receiver
pub data Kind : Type 0 where
  obj_string : Bytes → Kind
  obj_list : List ℕ → ℕ → Kind
  obj_map : ObjMap ℕ → Kind
  obj_bytes : Bytes → Kind
  obj_function : ℕ → ℕ → Chunk → ℕ → Kind
  obj_closure : ℕ → List ℕ → Kind
  obj_upvalue : ℕ → Kind
  obj_native : Kind
  obj_bound_method : ℕ → Kind

pub record Object : Type 0 where
  pub address : ℕ
  pub marked : Bool
  pub pinned : Bool
  pub kind : Kind

-- `sizeof` on a 64-bit machine
abbrev pub string_size : ℕ
string_size = 32

abbrev pub list_size : ℕ
list_size = 40

abbrev pub map_size : ℕ
map_size = 40

abbrev pub entry_size : ℕ
entry_size = 16

abbrev pub bytes_size : ℕ
bytes_size = 32

abbrev pub function_size : ℕ
function_size = 88

abbrev pub closure_size : ℕ
closure_size = 48

abbrev pub upvalue_size : ℕ
upvalue_size = 48

abbrev pub native_size : ℕ
native_size = 48

abbrev pub bound_size : ℕ
bound_size = 48

-- the bytes of the object itself
abbrev pub header_size : Kind → ℕ
header_size (obj_string data_bytes) = string_size + length data_bytes + 1
header_size (obj_list items capacity) = list_size
header_size (obj_map map) = map_size
header_size (obj_bytes data_bytes) = bytes_size + length data_bytes
header_size (obj_function arity count chunk name) = function_size
header_size (obj_closure fn upvalues) = closure_size
header_size (obj_upvalue closed) = upvalue_size
header_size obj_native = native_size
header_size (obj_bound_method receiver) = bound_size

-- `alloc_object`, and what the caller writes into the object
unfoldable pub alloc_object : MemoryStats → ℕ → Kind → Object × MemoryStats
alloc_object stats address kind = (
  record { address = address; marked = false; pinned = false; kind = kind },
  (vek_alloc stats (header_size kind)).0,
)

-- `obj_list_push` on the items and the capacity
unfoldable pub obj_list_push : MemoryStats → List ℕ → ℕ → ℕ → Kind × MemoryStats
obj_list_push stats items capacity value =
    let (capacity, stats) = make_room 8 (length items) capacity stats in
    (obj_list (items ++ value ∷ []) capacity, stats)

-- `none` is the failed assertion
unfoldable pub obj_list_get : List ℕ → ℕ → Option ℕ
obj_list_get items index = get_elem? items index

-- the array of `count` upvalues, and the closure
unfoldable pub obj_closure_new : MemoryStats → ℕ → ℕ → ℕ → Object × MemoryStats
unfolding alloc_object
obj_closure_new stats address fn count =
    let stats = (vek_alloc stats (8 * count)).0 in
    alloc_object stats address (obj_closure fn (replicate count val_nil))

-- the array of an object, behind the test that there is one
abbrev pub free_if : MemoryStats → ℕ → MemoryStats
free_if stats size = vek_free stats (size == 0) size

-- A chunk that is freed is not looked at again.
unfoldable pub free_parts : MemoryStats → Kind → MemoryStats
unfolding chunk_free
free_parts stats (obj_list items capacity) = free_if stats (8 * capacity)
free_parts stats (obj_map map) = free_if stats (entry_size * map.capacity)
free_parts stats (obj_function arity count chunk name) = (chunk_free stats chunk).1
free_parts stats (obj_closure fn upvalues) = free_if stats (8 * length upvalues)
free_parts stats other = stats

unfoldable pub obj_free : MemoryStats → Kind → MemoryStats
unfolding free_parts
obj_free stats kind = vek_free (free_parts stats kind) false (header_size kind)
