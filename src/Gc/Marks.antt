-- ===== src/Gc/Marks.antt =====
-- How marking an object of src/gc.c changes marks and the gray stack, and what it leaves alone.
use vek.Prelude.{
  ℕ, suc, ◌≡◌, refl, ◌≢◌, inl, inr, true, false, Option, none, some, [], ◌∷◌, arith, All,
  Bool-cases, ◌==◌,
}
use vek.Object.{Kind}
use vek.Gc.{Objects, find, set_mark, is_marked}

abbrev pub kind_at : Objects → ℕ → Option Kind
kind_at heap address = elim (find heap address) [ none ↦ none | some o ↦ some o.kind ]

-- the objects without a mark
abbrev pub unmarked : Objects → ℕ
unmarked [] = 0
unmarked (o ∷ os) = elim o.marked [ true ↦ unmarked os | false ↦ suc (unmarked os) ]

-- No two tracked objects share an address, and none is at NULL.
abbrev pub IsHeap : Objects → Type 0
IsHeap [] = Unit
IsHeap (o ∷ os) = (o.address ≢ 0) × (find os o.address ≡ none) × IsHeap os

pub kind_at-null : (heap : Objects) → IsHeap heap → kind_at heap 0 ≡ none
kind_at-null [] h = refl
kind_at-null (o ∷ os) h = ground (arith, h.0, kind_at-null os h.2)

pub kind_at-set_mark : (heap : Objects) (a b : ℕ) → kind_at (set_mark heap a) b ≡ kind_at heap b
kind_at-set_mark [] a b = refl
kind_at-set_mark (o ∷ os) a b = ground (arith, kind_at-set_mark os a b)

pub is_marked-set_mark_self :
    (heap : Objects) (a : ℕ) → kind_at heap a ≢ none → is_marked (set_mark heap a) a ≡ true
is_marked-set_mark_self [] a h = absurd (h refl)
is_marked-set_mark_self (o ∷ os) a h = ground (arith, is_marked-set_mark_self os a)

pub is_marked-set_mark_ne :
    (heap : Objects) (a b : ℕ) → a ≢ b → is_marked (set_mark heap a) b ≡ is_marked heap b
is_marked-set_mark_ne [] a b h = refl
is_marked-set_mark_ne (o ∷ os) a b h = ground (arith, is_marked-set_mark_ne os a b h)

pub unmarked-set_mark :
    (heap : Objects) (a : ℕ)
    → kind_at heap a ≢ none
    → is_marked heap a ≡ false
    → suc (unmarked (set_mark heap a)) ≡ unmarked heap
unmarked-set_mark [] a h e = absurd (h refl)
unmarked-set_mark (o ∷ os) a h e = ground (arith, unmarked-set_mark os a)

find-set_mark-none :
    (heap : Objects) (a b : ℕ) → find heap b ≡ none → find (set_mark heap a) b ≡ none
find-set_mark-none [] a b h = refl
find-set_mark-none (o ∷ os) a b h = ground (arith, find-set_mark-none os a b)

pub IsHeap-set_mark : (heap : Objects) (a : ℕ) → IsHeap heap → IsHeap (set_mark heap a)
IsHeap-set_mark [] a h = tt
IsHeap-set_mark (o ∷ os) a h = elim (Bool-cases (o.address == a)) [
  | inl e ↦ rw e h
  | inr e ↦ rw e (h.0, find-set_mark-none os a o.address h.1, IsHeap-set_mark os a h.2)
]

pub is_marked_clean :
    (heap : Objects) → All (λ o. o.marked ≡ false) heap → (a : ℕ) → is_marked heap a ≡ false
is_marked_clean [] h a = refl
is_marked_clean (o ∷ os) h a = ground (arith, h.0, is_marked_clean os h.1 a)
