-- ===== src/Gc/Trace.antt =====
-- Tracing the gray stack of src/gc.c: it ends, and marks exactly what can be reached.
use mathlib.Core.List.{Memᴰ}
use mathlib.Core.List.Memᴰ
use mathlib.Core.Option.{some-injective}
use vek.Prelude.{
  ℕ, zero, suc, ◌+◌, ◌≤◌, ◌≡◌, refl, sym, ap, ◌∙◌, subst, ◌≢◌, ◌⊎◌, inl, inr, Option-cases, true,
  false, none, some, List, [], ◌∷◌, length, arith,
}
use vek.Object.{Kind}
use vek.Gc.{Objects, find, is_marked, Marking, mark_objects, trace_found, gc_trace_references}
use vek.Gc.Marks.{kind_at, unmarked, IsHeap}
use vek.Gc.References.{references, trace_as_objects}
use vek.Gc.Grown.{Grown, Grown-objects}

-- an address is reachable if it is a tracked root or a tracked reference of what is reachable
pub data Reach (heap : Objects) (roots : List ℕ) : ℕ → Type 0 where
  root : {a : ℕ} → Memᴰ a roots → kind_at heap a ≢ none → Reach heap roots a
  step :
      {a b : ℕ} {k : Kind}
      → Reach heap roots a
      → kind_at heap a ≡ some k
      → Memᴰ b (references k)
      → kind_at heap b ≢ none
      → Reach heap roots b

trace_found-cases :
    (m : Marking) (a : ℕ) (rest : List ℕ)
    → kind_at m.heap 0 ≡ none
    → kind_at m.heap a ≢ none
    → (k : Kind) × (kind_at m.heap a ≡ some k)
      × Grown
          (record m { gray = rest })
          (trace_found (record m { gray = rest }) (find m.heap a))
          (references k)
trace_found-cases m a rest h tracked = elim (Option-cases (find m.heap a)) [
  | inl gone ↦ absurd (tracked (rw (kind_at, gone) refl))
  | inr (o, found) ↦
      let n = record m { gray = rest } in
      (
        o.kind,
        rw (kind_at, found) refl,
        subst (λ f. Grown n (trace_found n f) (references o.kind)) (sym found)
            (subst (λ t. Grown n t (references o.kind)) (sym (trace_as_objects n o.kind))
              (Grown-objects n (references o.kind) h)),
      )
]

List-cases : (xs : List ℕ) → (xs ≡ []) ⊎ ((x : ℕ) × (rest : List ℕ) × (xs ≡ x ∷ rest))
List-cases [] = inl refl
List-cases (x ∷ xs) = inr (x, xs, refl)

-- The marks are sound and, but for what is gray, closed under references.
pub record Tri (heap : Objects) (roots : List ℕ) (m : Marking) : Type 0 where
  pub kinds : (b : ℕ) → kind_at m.heap b ≡ kind_at heap b
  pub heaps : IsHeap m.heap
  pub gray : (b : ℕ) → Memᴰ b m.gray → is_marked m.heap b ≡ true
  pub rooted : (b : ℕ) → Memᴰ b roots → kind_at heap b ≢ none → is_marked m.heap b ≡ true
  pub sound : (b : ℕ) → is_marked m.heap b ≡ true → Reach heap roots b
  pub closed :
      {a b : ℕ} {k : Kind}
      → is_marked m.heap a ≡ true
      → kind_at heap a ≡ some k
      → Memᴰ b (references k)
      → kind_at heap b ≢ none
      → Memᴰ a m.gray ⊎ (is_marked m.heap b ≡ true)

marked_tracked : (heap : Objects) (b : ℕ) → is_marked heap b ≡ true → kind_at heap b ≢ none
marked_tracked heap b p = elim (Option-cases (find heap b)) [
  | inl gone ↦ cc (rw (is_marked, gone) at p)
  | inr (o, found) ↦ rw (kind_at, found) (λ q. cc)
]

module _ (heap : Objects) (roots : List ℕ) (null : kind_at heap 0 ≡ none) where
  pub Tri-start :
      (m : Marking)
      → IsHeap m.heap
      → ((b : ℕ) → kind_at m.heap b ≡ kind_at heap b)
      → ((b : ℕ) → is_marked m.heap b ≡ false)
      → m.gray ≡ []
      → Tri heap roots (mark_objects m roots)
  Tri-start m hp same clean e =
      let g = Grown-objects m roots (same 0 ∙ null) in
      record {
        kinds = λ b. g.kinds b ∙ same b;
        heaps = g.heaps hp;
        gray = λ b mem. elim (g.pushed b mem) [
          | inl old ↦ absurd (Memᴰ.not-nil (subst (Memᴰ b) e old))
          | inr p ↦ p
        ];
        rooted = λ b mem tracked. g.marks b mem (λ gone. tracked (sym (same b) ∙ gone));
        sound = λ b p. elim (g.only b p) [
          | inl old ↦ cc (old, clean b)
          | inr (mem, _, tracked) ↦ root mem (λ gone. tracked (same b ∙ gone))
        ];
        closed = λ {a} {b} {k} p _ _ _. elim (g.only a p) [
          | inl old ↦ cc (old, clean a)
          | inr (_, gray, _) ↦ inl gray
        ];
      }

  module _ (m n : Marking) (a : ℕ) (rest : List ℕ) (k : Kind) where
    Tri-step :
        Tri heap roots m
        → m.gray ≡ a ∷ rest
        → kind_at m.heap a ≡ some k
        → Grown (record m { gray = rest }) n (references k)
        → Tri heap roots n
    Tri-step t e kind g = record {
      kinds = λ b. g.kinds b ∙ t.kinds b;
      heaps = g.heaps t.heaps;
      gray = λ b mem. elim (g.pushed b mem) [
        | inl old ↦ g.kept b (t.gray b (subst (Memᴰ b) (sym e) (Memᴰ.tail old)))
        | inr p ↦ p
      ];
      rooted = λ b mem tracked. g.kept b (t.rooted b mem tracked);
      sound = λ b p. elim (g.only b p) [
        | inl old ↦ t.sound b old
        | inr (mem, _, tracked) ↦
            step (t.sound a top) kind_a mem (λ gone. tracked (t.kinds b ∙ gone))
      ];
      closed = λ {a = c} {b} {k = l} p kc mem tracked. elim (g.only c p) [
        | inl old ↦ elim (t.closed old kc mem tracked) [
          | inl waiting ↦ elim (Memᴰ.cases_cons (subst (Memᴰ c) e waiting)) [
            | inl own ↦
                inr (g.marks b (refs_of own kc mem) (λ gone. tracked (sym (t.kinds b) ∙ gone)))
            | inr later ↦ inl (g.stays c later)
          ]
          | inr q ↦ inr (g.kept b q)
        ]
        | inr (_, gray, _) ↦ inl gray
      ];
    }
      where
        top : is_marked m.heap a ≡ true
        top = t.gray a (subst (Memᴰ a) (sym e) (Memᴰ.head refl))

        kind_a : kind_at heap a ≡ some k
        kind_a = sym (t.kinds a) ∙ kind

        refs_of :
            {b c : ℕ} {l : Kind}
            → c ≡ a
            → kind_at heap c ≡ some l
            → Memᴰ b (references l)
            → Memᴰ b (references k)
        refs_of {b} own kc mem =
            subst (λ x. Memᴰ b (references x))
              (some-injective _ _ (sym kc ∙ ap (kind_at heap) own ∙ kind_a)) mem

  -- The fuel pays for the objects that are unmarked or gray, and each round makes one of them black.
  pub trace_ends :
      (fuel : ℕ) (m : Marking)
      → Tri heap roots m
      → unmarked m.heap + length m.gray ≤ fuel
      → (n : Marking) × (gc_trace_references fuel m ≡ some n) × Tri heap roots n × (n.gray ≡ [])
  unfolding gc_trace_references
  trace_ends zero m t h = elim (List-cases m.gray) [
    | inl e ↦ (m, simp (gc_trace_references, e), t, e)
    | inr (a, rest, e) ↦ absurd (omega (arith, ap length e))
  ]
  trace_ends (suc fuel) m t h = elim (List-cases m.gray) [
    | inl e ↦ (m, simp (gc_trace_references, e), t, e)
    | inr (a, rest, e) ↦
        let top = t.gray a (subst (Memᴰ a) (sym e) (Memᴰ.head refl)) in
        let (k, kind, g) =
          trace_found-cases m a rest (t.kinds 0 ∙ null) (marked_tracked m.heap a top) in
        let next = trace_found (record m { gray = rest }) (find m.heap a) in
        let (n, ends, tri, empty) =
          trace_ends fuel next (Tri-step m next a rest k t e kind g)
            (omega (arith, g.work, ap length e)) in
        (n, simp (gc_trace_references, e, ends), tri, empty)
  ]

  -- once nothing is gray, what is reachable is marked
  pub complete :
      (m : Marking)
      → Tri heap roots m
      → m.gray ≡ []
      → {b : ℕ} → Reach heap roots b
      → is_marked m.heap b ≡ true
  complete m t e (root {a} mem tracked) = t.rooted a mem tracked
  complete m t e (step {a} {b} {k} r kind mem tracked) =
      elim (t.closed (complete m t e r) kind mem tracked) [
        | inl waiting ↦ absurd (Memᴰ.not-nil (subst (Memᴰ a) e waiting))
        | inr p ↦ p
      ]
