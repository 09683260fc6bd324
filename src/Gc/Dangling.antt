-- ===== src/Gc/Dangling.antt =====
-- No pointer of the heap, of the roots or of the table of interned strings dangles after a collection of
-- src/gc.c.
use mathlib.Core.List.{Memᴰ}
use mathlib.Core.List.Memᴰ
use mathlib.Core.Option.{some-injective}
use vek.Prelude.{
  ℕ, ◌≡◌, refl, sym, ap, ◌∙◌, subst, ◌≢◌, ◌⊎◌, inl, inr, Bool-cases, Bool, true, none, some, List,
  [], ◌∷◌, All, ◌&&◌, ltb, ◌==◌,
}
use vek.Intern.{Entry, empty, tombstone, string, remove_loop, intern_table_remove_unmarked}
use vek.Object.{Kind, obj_string}
use vek.Gc.{Objects, is_marked, World, finish, gc_collect, gc_maybe_collect}
use vek.Gc.Marks.{kind_at}
use vek.Gc.References.{references, roots_of}
use vek.Gc.Trace.{root, step}
use vek.Gc.Collect.{
  IsReady, Live, Collected, collected, Live-kept, kept-Live, kind_after, IsReady-after,
}

-- an entry of the table is a tracked string with those bytes
abbrev pub IsInterned : Objects → Entry → Type 0
IsInterned heap empty = Unit
IsInterned heap tombstone = Unit
IsInterned heap (string address chars) = kind_at heap address ≡ some (obj_string chars)

pub record IsSound (w : World) : Type 0 where
  pub ready : IsReady w
  pub roots : (a : ℕ) → Memᴰ a (roots_of w.gc w.vm) → a ≢ 0 → kind_at w.gc.tracked a ≢ none
  pub refs :
      (a b : ℕ) (k : Kind)
      → kind_at w.gc.tracked a ≡ some k
      → Memᴰ b (references k)
      → b ≢ 0
      → kind_at w.gc.tracked b ≢ none
  pub interned : All (IsInterned w.gc.tracked) w.interned.entries

module _ (before after : Objects) (marked : ℕ → Bool) where
  All-remove_loop :
      ((a : ℕ) → marked a ≡ true → kind_at after a ≡ kind_at before a)
      → (es : List Entry) → All (IsInterned before) es
      → All (IsInterned after) (remove_loop marked es).0
  unfolding remove_loop
  All-remove_loop keep [] h = tt
  All-remove_loop keep (empty ∷ es) h = (tt, All-remove_loop keep es h.1)
  All-remove_loop keep (tombstone ∷ es) h = (tt, All-remove_loop keep es h.1)
  All-remove_loop keep (string a chars ∷ es) h = elim (Bool-cases (marked a)) [
    | inl p ↦ rw p (keep a p ∙ h.0, All-remove_loop keep es h.1)
    | inr p ↦ rw p (tt, All-remove_loop keep es h.1)
  ]

module _ (w w' : World) (s : IsSound w) (c : Collected w w') where
  same_roots : roots_of w'.gc w'.vm ≡ roots_of w.gc w.vm
  unfolding finish
  same_roots = ap (λ (v : World). roots_of v.gc v.vm) c.result

  entries_after : w'.interned.entries ≡ (remove_loop (is_marked c.marks) w.interned.entries).0
  unfolding finish intern_table_remove_unmarked
  entries_after = ap (λ (v : World). v.interned.entries) c.result

  kept : {a : ℕ} → Live w a → kind_at w.gc.tracked a ≢ none → kind_at w'.gc.tracked a ≢ none
  kept l tracked gone = tracked (sym (Live-kept w w' c l) ∙ gone)

  roots_after : (a : ℕ) → Memᴰ a (roots_of w'.gc w'.vm) → a ≢ 0 → kind_at w'.gc.tracked a ≢ none
  roots_after a mem n =
      let old = subst (Memᴰ a) same_roots mem in kept (root old (s.roots a old n)) (s.roots a old n)

  refs_after :
      (a b : ℕ) (k : Kind)
      → kind_at w'.gc.tracked a ≡ some k
      → Memᴰ b (references k)
      → b ≢ 0
      → kind_at w'.gc.tracked b ≢ none
  refs_after a b k e mem n =
      let (old, live) = kept-Live w w' c a k e in
      let tracked = s.refs a b k old mem n in kept (step live old mem tracked) tracked

  IsSound-after : IsSound w'
  IsSound-after = record {
    ready = IsReady-after w w' c;
    roots = roots_after;
    refs = refs_after;
    interned = subst (All (IsInterned w'.gc.tracked)) (sym entries_after) (
        All-remove_loop w.gc.tracked w'.gc.tracked (is_marked c.marks) (kind_after w w' c)
          w.interned.entries s.interned);
  }

collect-IsSound : (w : World) → IsSound w → (w' : World) × (gc_collect w ≡ some w') × IsSound w'
unfolding gc_collect
collect-IsSound w s = elim (Bool-cases w.gc.enabled) [
  | inl on ↦ let (w', e, c) = collected w s.ready on in (w', e, IsSound-after w w' s c)
  | inr off ↦ (w, rw (gc_collect, off) refl, s)
]

-- If no root, no tracked object and no interned string holds a pointer that dangles, then a collection
-- ends, whether it is forced or due, and none does afterwards.
pub gc_collect-IsSound :
    (w : World)
    → IsSound w
    → ((w' : World) × (gc_collect w ≡ some w') × IsSound w')
      × ((w' : World) × (gc_maybe_collect w ≡ some w') × IsSound w')
unfolding gc_maybe_collect
gc_collect-IsSound w s = (
  collect-IsSound w s,
  elim (Bool-cases (w.gc.enabled && ltb w.gc.next_gc w.stats.bytes_allocated)) [
    | inl due ↦ let (w', e, s') = collect-IsSound w s in (w', rw (gc_maybe_collect, due) e, s')
    | inr early ↦ (w, rw (gc_maybe_collect, early) refl, s)
  ],
)

-- To check the pointers of a heap one by one.
abbrev pub IsTracked : Objects → ℕ → Type 0
IsTracked heap a = (a ≡ 0) ⊎ (kind_at heap a ≢ none)

pub tracked_of :
    (heap : Objects) (as' : List ℕ)
    → All (IsTracked heap) as'
    → (a : ℕ) → Memᴰ a as'
    → a ≢ 0
    → kind_at heap a ≢ none
tracked_of heap [] h a mem n = absurd (Memᴰ.not-nil mem)
tracked_of heap (b ∷ bs) h a mem n = elim (Memᴰ.cases_cons mem) [
  | inl e ↦ elim h.0 [
    | inl null ↦ absurd (n (e ∙ null))
    | inr p ↦ subst (λ c. kind_at heap c ≢ none) (sym e) p
  ]
  | inr later ↦ tracked_of heap bs h.1 a later n
]

pub kinds_of :
    (P : Kind → Type 0) (heap : Objects)
    → All (λ o. P o.kind) heap
    → (a : ℕ) (k : Kind) → kind_at heap a ≡ some k
    → P k
kinds_of P [] h a k e = cc
kinds_of P (o ∷ os) h a k e = elim (Bool-cases (o.address == a)) [
  | inl here ↦ subst P (some-injective _ _ (rw (kind_at, here) at e)) h.0
  | inr there ↦ kinds_of P os h.1 a k (rw (kind_at, there) at e)
]
