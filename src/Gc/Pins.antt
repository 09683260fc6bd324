-- ===== src/Gc/Pins.antt =====
-- Pinning in src/gc.c: a pinned object outlives a collection.
use mathlib.Core.List.{Memᴰ}
use mathlib.Core.List.Memᴰ
use mathlib.Core.Option.{some-injective}
use vek.Prelude.{
  ℕ, suc, ◌-◌, ◌≡◌, refl, sym, ap, ◌∙◌, subst, ◌≢◌, inl, inr, Bool-cases, Bool, true, false, none,
  some, List, [], ◌∷◌, ◌++◌, length, take, set, get_or, get_elem?, get_elem?-set_self,
  get_elem?-set_ne, Option-cases, zero, ◌<◌, arith, ◌==◌, ==_iff,
}
use vek.Object.{Kind}
use vek.Gc.{
  Objects, find, is_marked, Gc, World, VmRoots, set_pin, vm_pin, vm_unpin, index_of, swap_last,
  gc_collect,
}
use vek.Gc.Marks.{kind_at, IsHeap}
use vek.Gc.References.{roots_of}
use vek.Gc.Trace.{root}
use vek.Gc.Collect.{IsReady, collected, Live-kept}

kind_at-set_pin :
    (pin : Bool) (heap : Objects) (a b : ℕ) → kind_at (set_pin pin heap a) b ≡ kind_at heap b
kind_at-set_pin pin [] a b = refl
kind_at-set_pin pin (o ∷ os) a b = ground (arith, kind_at-set_pin pin os a b)

is_marked-set_pin :
    (pin : Bool) (heap : Objects) (a b : ℕ) → is_marked (set_pin pin heap a) b ≡ is_marked heap b
is_marked-set_pin pin [] a b = refl
is_marked-set_pin pin (o ∷ os) a b = ground (arith, is_marked-set_pin pin os a b)

find-set_pin-none :
    (pin : Bool) (heap : Objects) (a b : ℕ)
    → find heap b ≡ none
    → find (set_pin pin heap a) b ≡ none
find-set_pin-none pin [] a b h = refl
find-set_pin-none pin (o ∷ os) a b h = ground (arith, find-set_pin-none pin os a b)

IsHeap-set_pin : (pin : Bool) (heap : Objects) (a : ℕ) → IsHeap heap → IsHeap (set_pin pin heap a)
IsHeap-set_pin pin [] a h = tt
IsHeap-set_pin pin (o ∷ os) a h = elim (Bool-cases (o.address == a)) [
  | inl e ↦ rw e h
  | inr e ↦ rw e (h.0, find-set_pin-none pin os a o.address h.1, IsHeap-set_pin pin os a h.2)
]

mem_get : (a : ℕ) (xs : List ℕ) → Memᴰ a xs → (j : ℕ) × (get_elem? xs j ≡ some a)
mem_get a [] mem = absurd (Memᴰ.not-nil mem)
mem_get a (x ∷ xs) mem = elim (Memᴰ.cases_cons mem) [
  | inl e ↦ (0, ap some (sym e))
  | inr later ↦ let (j, e) = mem_get a xs later in (suc j, e)
]

get_mem : (a : ℕ) (xs : List ℕ) (j : ℕ) → get_elem? xs j ≡ some a → Memᴰ a xs
get_mem a [] j e = cc
get_mem a (x ∷ xs) zero e = Memᴰ.head (sym (some-injective _ _ e))
get_mem a (x ∷ xs) (suc j) e = Memᴰ.tail (get_mem a xs j e)

get-take : (n : ℕ) (xs : List ℕ) (j : ℕ) → j < n → get_elem? (take n xs) j ≡ get_elem? xs j
get-take zero xs j h = absurd (omega arith)
get-take (suc n) [] j h = refl
get-take (suc n) (x ∷ xs) zero h = refl
get-take (suc n) (x ∷ xs) (suc j) h = get-take n xs j (omega arith)

get_lt : (xs : List ℕ) (j : ℕ) {a : ℕ} → get_elem? xs j ≡ some a → j < length xs
get_lt [] j e = cc
get_lt (x ∷ xs) zero e = omega arith
get_lt (x ∷ xs) (suc j) e = omega (arith, get_lt xs j e)

get_or_get : (xs : List ℕ) (j : ℕ) {a : ℕ} → get_elem? xs j ≡ some a → get_or xs j 0 ≡ a
get_or_get [] j e = cc
get_or_get (x ∷ xs) zero e = some-injective _ _ e
get_or_get (x ∷ xs) (suc j) e = get_or_get xs j e

get-index_of : (xs : List ℕ) (b i : ℕ) → index_of xs b ≡ some i → get_elem? xs i ≡ some b
get-index_of [] b i e = cc
get-index_of (x ∷ xs) b i e = elim (Bool-cases (x == b)) [
  | inl here ↦
      subst (λ k. get_elem? (x ∷ xs) k ≡ some b) (some-injective _ _ (rw (index_of, here) at e))
        (ap some ((==_iff x b).0 here))
  | inr there ↦ elim (Option-cases (index_of xs b)) [
    | inl gone ↦ cc (rw (index_of, there, gone) at e)
    | inr (k, found) ↦
        subst (λ l. get_elem? (x ∷ xs) l ≡ some b)
          (some-injective _ _ (rw (index_of, there, found) at e)) (get-index_of xs b k found)
  ]
]

-- what is not unpinned stays in the list
mem-swap_last :
    (xs : List ℕ) (a b i : ℕ) → Memᴰ a xs → index_of xs b ≡ some i → a ≢ b → Memᴰ a (swap_last xs i)
mem-swap_last xs a b i mem e n =
    let (j, at_j) = mem_get a xs mem in
    let at_i = get-index_of xs b i e in
    let last = length xs - 1 in
    elim (Bool-cases (j == last)) [
      | inl e_last ↦
          let j_last = (==_iff j last).0 e_last in
          let final = get_or_get xs last (subst (λ k. get_elem? xs k ≡ some a) j_last at_j) in
          let apart = λ (p : i ≡ last).
            n (some-injective _ _ (sym at_j ∙ ap (get_elem? xs) (j_last ∙ sym p) ∙ at_i)) in
          get_mem a (swap_last xs i) i (
            get-take last (set xs i (get_or xs last 0)) i (ground (arith, get_lt xs i at_i, apart))
            ∙ get_elem?-set_self xs i (get_or xs last 0) (get_lt xs i at_i)
            ∙ ap some final)
      | inr e_last ↦
          let apart =
            λ (p : i ≡ j). n (some-injective _ _ (sym at_j ∙ ap (get_elem? xs) (sym p) ∙ at_i)) in
          get_mem a (swap_last xs i) j (
            get-take last (set xs i (get_or xs last 0)) j (ground (arith, get_lt xs j at_j, e_last))
            ∙ get_elem?-set_ne xs (get_or xs last 0) apart
            ∙ at_j)
    ]

-- Pins and unpins keep the contents and the marks.
record Repinned (gc gc' : Gc) : Type 0 where
  kinds : (a : ℕ) → kind_at gc'.tracked a ≡ kind_at gc.tracked a
  marks : (a : ℕ) → is_marked gc'.tracked a ≡ is_marked gc.tracked a
  heaps : IsHeap gc.tracked → IsHeap gc'.tracked
  enabled : gc'.enabled ≡ gc.enabled

Repinned-set_pin :
    (pin : Bool) (gc : Gc) (a : ℕ) (pins : List ℕ)
    → Repinned gc (record gc { tracked = set_pin pin gc.tracked a; pinned_objects = pins })
Repinned-set_pin pin gc a pins = record {
  kinds = kind_at-set_pin pin gc.tracked a;
  marks = is_marked-set_pin pin gc.tracked a;
  heaps = IsHeap-set_pin pin gc.tracked a;
  enabled = refl;
}

Repinned-self : (gc : Gc) → Repinned gc gc
Repinned-self gc = record { kinds = λ a. refl; marks = λ a. refl; heaps = λ h. h; enabled = refl }

Repinned-pin : (gc : Gc) (a : ℕ) → Repinned gc (vm_pin gc a)
unfolding vm_pin
Repinned-pin gc a = elim (Bool-cases (a == 0)) [
  | inl e ↦ rw e (Repinned-self gc)
  | inr e ↦ rw e (Repinned-set_pin true gc a (gc.pinned_objects ++ a ∷ []))
]

Repinned-unpin : (gc : Gc) (a : ℕ) → Repinned gc (vm_unpin gc a)
unfolding vm_unpin
Repinned-unpin gc a = elim (Bool-cases (a == 0)) [
  | inl e ↦ rw e (Repinned-self gc)
  | inr e ↦ rw e (Repinned-set_pin false gc a _)
]

mem-pin : (gc : Gc) (a : ℕ) → a ≢ 0 → Memᴰ a (vm_pin gc a).pinned_objects
unfolding vm_pin
mem-pin gc a n = elim (Bool-cases (a == 0)) [
  | inl e ↦ absurd (n ((==_iff a 0).0 e))
  | inr e ↦ rw e (Memᴰ.append_right gc.pinned_objects (Memᴰ.head refl))
]

mem-unpin :
    (gc : Gc) (a b : ℕ) → Memᴰ a gc.pinned_objects → a ≢ b → Memᴰ a (vm_unpin gc b).pinned_objects
unfolding vm_unpin
mem-unpin gc a b mem n = elim (Bool-cases (b == 0)) [
  | inl e ↦ rw e mem
  | inr e ↦ elim (Option-cases (index_of gc.pinned_objects b)) [
    | inl gone ↦ rw (e, gone) mem
    | inr (i, found) ↦ rw (e, found) (mem-swap_last gc.pinned_objects a b i mem found n)
  ]
]

pinned_root : (gc : Gc) (vm : VmRoots) (a : ℕ) → Memᴰ a gc.pinned_objects → Memᴰ a (roots_of gc vm)
pinned_root gc vm a mem =
    Memᴰ.append_left _ (Memᴰ.append_left _ (Memᴰ.append_left _ (Memᴰ.append_left _ mem)))

-- A tracked object that is pinned outlives a collection, whatever other object was unpinned since.
pub pinned_survives :
    (w : World) (a b : ℕ) (k : Kind)
    → IsReady w
    → w.gc.enabled ≡ true
    → kind_at w.gc.tracked a ≡ some k
    → a ≢ 0
    → a ≢ b
    → (w' : World) × (gc_collect (record w { gc = vm_unpin (vm_pin w.gc a) b }) ≡ some w')
      × (kind_at w'.gc.tracked a ≡ some k)
pinned_survives w a b k r on kind n ne =
    let pin = Repinned-pin w.gc a in
    let unpin = Repinned-unpin (vm_pin w.gc a) b in
    let start = record w { gc = vm_unpin (vm_pin w.gc a) b } in
    let held = unpin.kinds a ∙ pin.kinds a ∙ kind in
    let (w', e, c) =
      collected start
        (record {
          heap = unpin.heaps (pin.heaps r.heap);
          clean = λ x. unpin.marks x ∙ pin.marks x ∙ r.clean x;
        })
        (unpin.enabled ∙ pin.enabled ∙ on) in
    (
      w',
      e,
      Live-kept start w' c (
            root (pinned_root start.gc w.vm a (mem-unpin (vm_pin w.gc a) a b (mem-pin w.gc a n) ne))
              (λ gone. cc (held, gone)))
          ∙ held,
    )
