-- ===== src/Gc/References.antt =====
-- The references that tracing follows, as lists of addresses, and what marking such a list does.
use vek.Prelude.{
  ℕ, ◌≡◌, refl, sym, ◌∙◌, subst, inl, inr, Bool-cases, List, [], ◌∷◌, ◌++◌, if◌then◌else◌,
}
use vek.Value.{is_ptr, value_as_ptr}
use vek.ObjMap.{Slot, empty, tombstone, live}
use vek.Object.{
  Kind, obj_string, obj_list, obj_map, obj_bytes, obj_function, obj_closure, obj_upvalue,
  obj_native, obj_bound_method,
}
use vek.Gc.{
  Marking, gc_mark_object, gc_mark_value, mark_objects, mark_values, mark_entries, gc_trace_object,
  Gc, VmRoots, no_gray, vm_mark_roots, gc_mark_roots,
}

abbrev pub targets : ℕ → List ℕ
targets value = if is_ptr value then value_as_ptr value ∷ [] else []

abbrev pub value_targets : List ℕ → List ℕ
value_targets [] = []
value_targets (v ∷ vs) = targets v ++ value_targets vs

abbrev pub entry_targets : List (Slot ℕ) → List ℕ
entry_targets [] = []
entry_targets (empty ∷ es) = entry_targets es
entry_targets (tombstone ∷ es) = entry_targets es
entry_targets (live key value ∷ es) = key ∷ targets value ++ entry_targets es

-- every address that an object holds, NULL among them
abbrev pub references : Kind → List ℕ
references (obj_string data_bytes) = []
references (obj_list items capacity) = value_targets items
references (obj_map map) = entry_targets map.entries
references (obj_bytes data_bytes) = []
references (obj_function arity count chunk name) = name ∷ value_targets chunk.constants
references (obj_closure fn upvalues) = fn ∷ value_targets upvalues
references (obj_upvalue closed) = targets closed
references obj_native = []
references (obj_bound_method receiver) = targets receiver

-- every address that the roots hold
abbrev pub roots_of : Gc → VmRoots → List ℕ
roots_of gc vm =
    gc.pinned_objects
    ++ value_targets gc.roots
    ++ value_targets vm.stack
    ++ vm.closures
    ++ vm.globals ∷ vm.open_upvalues

pub mark_objects-append :
    (m : Marking) (as' bs : List ℕ)
    → mark_objects m (as' ++ bs) ≡ mark_objects (mark_objects m as') bs
unfolding mark_objects
mark_objects-append m [] bs = refl
mark_objects-append m (a ∷ as') bs = mark_objects-append (gc_mark_object m a) as' bs

pub mark_value_as_objects : (m : Marking) (v : ℕ) → gc_mark_value m v ≡ mark_objects m (targets v)
unfolding gc_mark_value mark_objects
mark_value_as_objects m v = elim (Bool-cases (is_ptr v)) [ inl e ↦ rw e refl | inr e ↦ rw e refl ]

pub mark_values_as_objects :
    (m : Marking) (vs : List ℕ) → mark_values m vs ≡ mark_objects m (value_targets vs)
unfolding mark_values mark_objects
mark_values_as_objects m [] = refl
mark_values_as_objects m (v ∷ vs) =
    mark_values_as_objects (gc_mark_value m v) vs
    ∙ subst
        (λ n. mark_objects n (value_targets vs) ≡ mark_objects m (targets v ++ value_targets vs))
        (sym (mark_value_as_objects m v))
        (sym (mark_objects-append m (targets v) (value_targets vs)))

pub mark_entries_as_objects :
    (m : Marking) (es : List (Slot ℕ)) → mark_entries m es ≡ mark_objects m (entry_targets es)
unfolding mark_entries mark_objects
mark_entries_as_objects m [] = refl
mark_entries_as_objects m (empty ∷ es) = mark_entries_as_objects m es
mark_entries_as_objects m (tombstone ∷ es) = mark_entries_as_objects m es
mark_entries_as_objects m (live key v ∷ es) =
    let n = gc_mark_object m key in
    mark_entries_as_objects (gc_mark_value n v) es
    ∙ subst
        (λ o. mark_objects o (entry_targets es) ≡ mark_objects n (targets v ++ entry_targets es))
        (sym (mark_value_as_objects n v))
        (sym (mark_objects-append n (targets v) (entry_targets es)))

-- Tracing an object marks what it refers to.
pub trace_as_objects :
    (m : Marking) (k : Kind) → gc_trace_object m k ≡ mark_objects m (references k)
unfolding gc_trace_object mark_objects
trace_as_objects m (obj_string data_bytes) = refl
trace_as_objects m (obj_list items capacity) = mark_values_as_objects m items
trace_as_objects m (obj_map map) = mark_entries_as_objects m map.entries
trace_as_objects m (obj_bytes data_bytes) = refl
trace_as_objects m (obj_function arity count chunk name) =
    mark_values_as_objects (gc_mark_object m name) chunk.constants
trace_as_objects m (obj_closure fn upvalues) = mark_values_as_objects (gc_mark_object m fn) upvalues
trace_as_objects m (obj_upvalue closed) = mark_value_as_objects m closed
trace_as_objects m obj_native = refl
trace_as_objects m (obj_bound_method receiver) = mark_value_as_objects m receiver

pub roots_as_objects :
    (gc : Gc) (vm : VmRoots)
    → gc_mark_roots gc vm ≡ mark_objects (no_gray gc.tracked) (roots_of gc vm)
unfolding gc_mark_roots vm_mark_roots mark_objects
roots_as_objects gc vm =
    rw
      (
        mark_values_as_objects, mark_values_as_objects, mark_objects-append, mark_objects-append,
        mark_objects-append, mark_objects-append,
      )
      refl
