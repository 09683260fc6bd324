-- ===== src/Gc/Grown.antt =====
-- What marking a list of addresses does to the marks, the gray stack and the work that is left.
use mathlib.Core.List.{Memᴰ}
use mathlib.Core.List.Memᴰ
use vek.Prelude.{
  ℕ, ◌+◌, ◌≡◌, refl, sym, ◌∙◌, subst, ◌≢◌, ◌⊎◌, inl, inr, Bool-cases, Option-cases, true, false,
  none, List, [], ◌∷◌, length, ◌==◌, ==_iff, arith,
}
use vek.Gc.{Objects, find, set_mark, is_marked, Marking, gc_mark_object, mark_objects}
use vek.Gc.Marks.{
  kind_at, unmarked, kind_at-set_mark, is_marked-set_mark_self, is_marked-set_mark_ne,
  unmarked-set_mark, IsHeap, IsHeap-set_mark,
}

-- `m` has become `n` by marking the tracked addresses among `as'`
pub record Grown (m n : Marking) (as' : List ℕ) : Type 0 where
  pub kinds : (b : ℕ) → kind_at n.heap b ≡ kind_at m.heap b
  pub heaps : IsHeap m.heap → IsHeap n.heap
  pub kept : (b : ℕ) → is_marked m.heap b ≡ true → is_marked n.heap b ≡ true
  pub marks : (b : ℕ) → Memᴰ b as' → kind_at m.heap b ≢ none → is_marked n.heap b ≡ true
  pub only :
      (b : ℕ)
      → is_marked n.heap b ≡ true
      → (is_marked m.heap b ≡ true) ⊎ (Memᴰ b as' × Memᴰ b n.gray × (kind_at m.heap b ≢ none))
  pub stays : (b : ℕ) → Memᴰ b m.gray → Memᴰ b n.gray
  pub pushed : (b : ℕ) → Memᴰ b n.gray → Memᴰ b m.gray ⊎ (is_marked n.heap b ≡ true)
  pub work : unmarked n.heap + length n.gray ≡ unmarked m.heap + length m.gray

-- either nothing happens, as the address is not tracked or marked, or the object is marked and pushed
data MarkCase (m : Marking) (a : ℕ) : Type 0 where
  idle :
      gc_mark_object m a ≡ m
      → (kind_at m.heap a ≡ none) ⊎ (is_marked m.heap a ≡ true)
      → MarkCase m a
  push :
      gc_mark_object m a ≡ record { heap = set_mark m.heap a; gray = a ∷ m.gray }
      → kind_at m.heap a ≢ none
      → is_marked m.heap a ≡ false
      → MarkCase m a

gc_mark_object-cases : (m : Marking) (a : ℕ) → kind_at m.heap 0 ≡ none → MarkCase m a
unfolding gc_mark_object
gc_mark_object-cases m a h = elim (Bool-cases (a == 0)) [
  | inl e ↦ idle (rw e refl) (inl (subst (λ b. kind_at m.heap b ≡ none) (sym ((==_iff a 0).0 e)) h))
  | inr e ↦ elim (Option-cases (find m.heap a)) [
    | inl gone ↦ idle (rw (e, gone) refl) (inl (rw (kind_at, gone) refl))
    | inr (o, found) ↦ elim (Bool-cases o.marked) [
      | inl marked ↦ idle (rw (e, found, marked) refl) (inr (rw (is_marked, found, marked) refl))
      | inr clear ↦
          push (rw (e, found, clear) refl) (rw (kind_at, found) (λ p. cc))
            (rw (is_marked, found, clear) refl)
    ]
  ]
]

module _ (m : Marking) (a : ℕ) where
  at_own : {b : ℕ} → Memᴰ b (a ∷ []) → (P : ℕ → Type 0) → P a → P b
  at_own mem P p = subst P (sym (Memᴰ.eq_of_singleton mem)) p

  Grown-idle : (kind_at m.heap a ≡ none) ⊎ (is_marked m.heap a ≡ true) → Grown m m (a ∷ [])
  Grown-idle why = record {
    kinds = λ b. refl;
    heaps = λ h. h;
    kept = λ b p. p;
    marks =
        λ b mem. at_own mem (λ c. kind_at m.heap c ≢ none → is_marked m.heap c ≡ true) (known why);
    only = λ b p. inl p;
    stays = λ b p. p;
    pushed = λ b p. inl p;
    work = refl;
  }
    where
      known :
          (kind_at m.heap a ≡ none) ⊎ (is_marked m.heap a ≡ true)
          → kind_at m.heap a ≢ none
          → is_marked m.heap a ≡ true
      known (inl gone) tracked = absurd (tracked gone)
      known (inr p) tracked = p

  module _ (tracked : kind_at m.heap a ≢ none) (clear : is_marked m.heap a ≡ false) where
    abbrev after : Objects
    after = set_mark m.heap a

    after-own : is_marked after a ≡ true
    after-own = is_marked-set_mark_self m.heap a tracked

    -- another address keeps its mark
    after-cases : (b : ℕ) → (b ≡ a) ⊎ (is_marked after b ≡ is_marked m.heap b)
    after-cases b = elim (Bool-cases (a == b)) [
      | inl e ↦ inl (sym ((==_iff a b).0 e))
      | inr e ↦ inr (is_marked-set_mark_ne m.heap a b (λ p. ground (arith, e, p)))
    ]

    after-kept : (b : ℕ) → is_marked m.heap b ≡ true → is_marked after b ≡ true
    after-kept b p = elim (after-cases b) [
      | inl e ↦ subst (λ c. is_marked after c ≡ true) (sym e) after-own
      | inr e ↦ e ∙ p
    ]

    after-only :
        (b : ℕ)
        → is_marked after b ≡ true
        → (is_marked m.heap b ≡ true)
          ⊎ (Memᴰ b (a ∷ []) × Memᴰ b (a ∷ m.gray) × (kind_at m.heap b ≢ none))
    after-only b p = elim (after-cases b) [
      | inl e ↦ inr (Memᴰ.head e, Memᴰ.head e, subst (λ c. kind_at m.heap c ≢ none) (sym e) tracked)
      | inr e ↦ inl (sym e ∙ p)
    ]

    after-pushed : (b : ℕ) → Memᴰ b (a ∷ m.gray) → Memᴰ b m.gray ⊎ (is_marked after b ≡ true)
    after-pushed b mem = elim (Memᴰ.cases_cons mem) [
      | inl e ↦ inr (subst (λ c. is_marked after c ≡ true) (sym e) after-own)
      | inr p ↦ inl p
    ]

    Grown-push : Grown m (record { heap = after; gray = a ∷ m.gray }) (a ∷ [])
    Grown-push = record {
      kinds = kind_at-set_mark m.heap a;
      heaps = IsHeap-set_mark m.heap a;
      kept = after-kept;
      marks = λ b mem _. at_own mem (λ c. is_marked after c ≡ true) after-own;
      only = after-only;
      stays = λ b p. Memᴰ.tail p;
      pushed = after-pushed;
      work = omega (arith, unmarked-set_mark m.heap a tracked clear);
    }

  Grown-mark : kind_at m.heap 0 ≡ none → Grown m (gc_mark_object m a) (a ∷ [])
  Grown-mark h = elim (gc_mark_object-cases m a h) [
    | idle e why ↦ subst (λ n. Grown m n (a ∷ [])) (sym e) (Grown-idle why)
    | push e tracked clear ↦ subst (λ n. Grown m n (a ∷ [])) (sym e) (Grown-push tracked clear)
  ]

Grown-self : (m : Marking) → Grown m m []
Grown-self m = record {
  kinds = λ b. refl;
  heaps = λ h. h;
  kept = λ b p. p;
  marks = λ b mem tracked. absurd (Memᴰ.not-nil mem);
  only = λ b p. inl p;
  stays = λ b p. p;
  pushed = λ b p. inl p;
  work = refl;
}

Grown-then :
    (m n o : Marking) (a : ℕ) (as' : List ℕ)
    → Grown m n (a ∷ [])
    → Grown n o as'
    → Grown m o (a ∷ as')
Grown-then m n o a as' g k = record {
  kinds = λ b. k.kinds b ∙ g.kinds b;
  heaps = λ h. k.heaps (g.heaps h);
  kept = λ b p. k.kept b (g.kept b p);
  marks = λ b mem tracked. elim (Memᴰ.cases_cons mem) [
    | inl e ↦ k.kept b (g.marks b (Memᴰ.head e) tracked)
    | inr p ↦ k.marks b p (λ gone. tracked (sym (g.kinds b) ∙ gone))
  ];
  only = λ b p. elim (k.only b p) [
    | inl before ↦ elim (g.only b before) [
      | inl old ↦ inl old
      | inr (mem, gray, tracked) ↦
          inr (Memᴰ.head (Memᴰ.eq_of_singleton mem), k.stays b gray, tracked)
    ]
    | inr (mem, gray, tracked) ↦ inr (Memᴰ.tail mem, gray, λ gone. tracked (g.kinds b ∙ gone))
  ];
  stays = λ b p. k.stays b (g.stays b p);
  pushed = λ b p. elim (k.pushed b p) [
    | inl before ↦ elim (g.pushed b before) [ inl old ↦ inl old | inr q ↦ inr (k.kept b q) ]
    | inr q ↦ inr q
  ];
  work = omega (arith, g.work, k.work);
}

pub Grown-objects :
    (m : Marking) (as' : List ℕ) → kind_at m.heap 0 ≡ none → Grown m (mark_objects m as') as'
unfolding mark_objects
Grown-objects m [] h = Grown-self m
Grown-objects m (a ∷ as') h =
    let n = gc_mark_object m a in
    let g = Grown-mark m a h in
    Grown-then m n (mark_objects n as') a as' g (Grown-objects n as' (g.kinds 0 ∙ h))
