-- ===== src/Gc/Sweep.antt =====
-- What the sweep of src/gc.c keeps: the marked objects, with their marks cleared.
use vek.Prelude.{ℕ, ◌≡◌, refl, true, false, none, [], ◌∷◌, arith, if◌then◌else◌}
use vek.Memory.{MemoryStats}
use vek.Object.{obj_free}
use vek.Gc.{Objects, find, is_marked, gc_sweep}
use vek.Gc.Marks.{kind_at, IsHeap}

abbrev pub swept : MemoryStats → Objects → Objects
unfolding gc_sweep
swept stats heap = (gc_sweep stats heap).0

-- an address that is not tracked is not tracked after the sweep
find-swept-none :
    (stats : MemoryStats) (heap : Objects) (a : ℕ)
    → find heap a ≡ none
    → find (swept stats heap) a ≡ none
unfolding gc_sweep
find-swept-none stats [] a h = refl
find-swept-none stats (o ∷ os) a h =
    ground (arith, find-swept-none (if o.marked then stats else obj_free stats o.kind) os a)

pub kind_at-swept :
    (stats : MemoryStats) (heap : Objects) (a : ℕ)
    → IsHeap heap
    → is_marked heap a ≡ true
    → kind_at (swept stats heap) a ≡ kind_at heap a
unfolding gc_sweep
kind_at-swept stats [] a h p = refl
kind_at-swept stats (o ∷ os) a h p =
    ground (arith, kind_at-swept (if o.marked then stats else obj_free stats o.kind) os a h.2)

pub gone-swept :
    (stats : MemoryStats) (heap : Objects) (a : ℕ)
    → IsHeap heap
    → is_marked heap a ≡ false
    → kind_at (swept stats heap) a ≡ none
unfolding gc_sweep
gone-swept stats [] a h p = refl
gone-swept stats (o ∷ os) a h p =
    let stats' = if o.marked then stats else obj_free stats o.kind in
    ground (arith, gone-swept stats' os a h.2, find-swept-none stats' os a)

pub clean-swept :
    (stats : MemoryStats) (heap : Objects) (a : ℕ) → is_marked (swept stats heap) a ≡ false
unfolding gc_sweep
clean-swept stats [] a = refl
clean-swept stats (o ∷ os) a =
    ground (arith, clean-swept (if o.marked then stats else obj_free stats o.kind) os a)

pub IsHeap-swept : (stats : MemoryStats) (heap : Objects) → IsHeap heap → IsHeap (swept stats heap)
unfolding gc_sweep
IsHeap-swept stats [] h = tt
IsHeap-swept stats (o ∷ os) h =
    let stats' = if o.marked then stats else obj_free stats o.kind in
    ground (arith, IsHeap-swept stats' os h.2, find-swept-none stats' os o.address h.1)
