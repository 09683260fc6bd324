-- ===== src/Gc/Collect.antt =====
-- A whole collection of src/gc.c.
use vek.Prelude.{
  ℕ, ◌≤◌, ◌≡◌, refl, sym, ap, ◌∙◌, subst, ◌↔◌, inl, inr, Bool-cases, true, false, none, some, [],
  ◌∷◌, length, arith,
}
use vek.Object.{Kind}
use vek.Gc.{Objects, is_marked, no_gray, mark_objects, gc_sweep, World, finish, gc_collect}
use vek.Gc.Marks.{kind_at, unmarked, IsHeap, kind_at-null}
use vek.Gc.References.{roots_of, roots_as_objects}
use vek.Gc.Grown.{Grown-objects}
use vek.Gc.Trace.{Reach, Tri-start, trace_ends, complete}
use vek.Gc.Sweep.{swept, kind_at-swept, gone-swept, clean-swept, IsHeap-swept}

unmarked-le-length : (heap : Objects) → unmarked heap ≤ length heap
unmarked-le-length [] = omega arith
unmarked-le-length (o ∷ os) = ground (arith, unmarked-le-length os)

-- Outside a collection the tracked objects have addresses of their own and no mark.
pub record IsReady (w : World) : Type 0 where
  pub heap : IsHeap w.gc.tracked
  pub clean : (a : ℕ) → is_marked w.gc.tracked a ≡ false

-- what a collection can reach
abbrev pub Live : World → ℕ → Type 0
Live w a = Reach w.gc.tracked (roots_of w.gc w.vm) a

-- The world that a collection makes: `marks` is the heap when the gray stack is empty.
pub record Collected (w w' : World) : Type 0 where
  pub marks : Objects
  pub result : w' ≡ finish w marks
  pub heap : IsHeap marks
  pub kinds : (a : ℕ) → kind_at marks a ≡ kind_at w.gc.tracked a
  pub sound : (a : ℕ) → is_marked marks a ≡ true → Live w a
  pub full : {a : ℕ} → Live w a → is_marked marks a ≡ true

pub collected :
    (w : World)
    → IsReady w
    → w.gc.enabled ≡ true
    → (w' : World) × (gc_collect w ≡ some w') × Collected w w'
unfolding gc_collect
collected w r on =
    let tracked = w.gc.tracked in
    let roots = roots_of w.gc w.vm in
    let start = no_gray tracked in
    let tri =
      Tri-start tracked roots (kind_at-null tracked r.heap) start r.heap (λ a. refl) r.clean refl in
    let (n, ends, t, empty) =
      trace_ends tracked roots (kind_at-null tracked r.heap) (length tracked)
        (mark_objects start roots) tri
        (omega (
          arith,
          unmarked-le-length tracked,
          (Grown-objects start roots (kind_at-null tracked r.heap)).work,
        )) in
    (
      finish w n.heap,
      rw (on, roots_as_objects, ends) refl,
      record {
        marks = n.heap;
        result = refl;
        heap = t.heaps;
        kinds = t.kinds;
        sound = t.sound;
        full = complete tracked roots (kind_at-null tracked r.heap) n t empty;
      },
    )

module _ (w w' : World) (c : Collected w w') where
  tracked_after : w'.gc.tracked ≡ swept w.stats c.marks
  unfolding finish gc_sweep
  tracked_after = ap (λ (v : World). v.gc.tracked) c.result

  pub kind_after :
      (a : ℕ) → is_marked c.marks a ≡ true → kind_at w'.gc.tracked a ≡ kind_at w.gc.tracked a
  kind_after a p =
      ap (λ h. kind_at h a) tracked_after ∙ kind_at-swept w.stats c.marks a c.heap p ∙ c.kinds a

  gone_after : (a : ℕ) → is_marked c.marks a ≡ false → kind_at w'.gc.tracked a ≡ none
  gone_after a p = ap (λ h. kind_at h a) tracked_after ∙ gone-swept w.stats c.marks a c.heap p

  pub Live-kept : {a : ℕ} → Live w a → kind_at w'.gc.tracked a ≡ kind_at w.gc.tracked a
  Live-kept {a} l = kind_after a (c.full l)

  pub kept-Live :
      (a : ℕ) (k : Kind)
      → kind_at w'.gc.tracked a ≡ some k
      → (kind_at w.gc.tracked a ≡ some k) × Live w a
  kept-Live a k e = elim (Bool-cases (is_marked c.marks a)) [
    | inl p ↦ (sym (kind_after a p) ∙ e, c.sound a p)
    | inr p ↦ cc (e, gone_after a p)
  ]

  pub IsReady-after : IsReady w'
  IsReady-after = record {
    heap = subst IsHeap (sym tracked_after) (IsHeap-swept w.stats c.marks c.heap);
    clean = λ a. ap (λ h. is_marked h a) tracked_after ∙ clean-swept w.stats c.marks a;
  }

-- A collection of a heap of unmarked objects with addresses of their own ends, keeps exactly the
-- objects that can be reached from the roots, each with its content, and leaves such a heap again.
pub gc_collect-Live :
    (w : World)
    → IsReady w
    → w.gc.enabled ≡ true
    → (w' : World) × (gc_collect w ≡ some w')
      × ((a : ℕ) (k : Kind)
          → (kind_at w'.gc.tracked a ≡ some k) ↔ ((kind_at w.gc.tracked a ≡ some k) × Live w a))
      × IsReady w'
gc_collect-Live w r on =
    let (w', e, c) = collected w r on in
    (
      w',
      e,
      λ a k. (kept-Live w w' c a k, λ (kind, live). Live-kept w w' c live ∙ kind),
      IsReady-after w w' c,
    )
