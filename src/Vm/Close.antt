-- ===== src/Vm/Close.antt =====
-- `close_upvalues` of src/vm.c: what is closed, and that no upvalue changes its value.
use vek.Prelude.{
  subst, ℕ, ◌≤◌, ◌≡◌, refl, ◌∙◌, inl, inr, Bool-cases, none, List, [], ◌∷◌, set, leb, ◌==◌, ==_iff,
  arith, Option-cases,
}
use vek.Vm.{OpenUpvalue, ClosedUpvalue, slot, location_of, close_loop}
use vek.Vm.Upvalues.{Ordered, Ordered-le, location_of-lt, read_in, get_or-set_ne}

pub Ordered-close_loop :
    (stack : List ℕ) (last n : ℕ) (os : List OpenUpvalue) (cs : List ClosedUpvalue)
    → Ordered n os
    → Ordered n (close_loop stack last os cs).0
unfolding close_loop
Ordered-close_loop stack last n [] cs ordered = tt
Ordered-close_loop stack last n (o ∷ os) cs ordered = elim (Bool-cases (leb last o.location)) [
  | inl h ↦ rw h (
      Ordered-le o.location n _ (omega (arith, ordered.0))
        (Ordered-close_loop stack last _ os _ ordered.2))
  | inr h ↦ rw h ordered
]

-- none that is left is at `last` or above
pub Ordered-close_last :
    (stack : List ℕ) (last n : ℕ) (os : List OpenUpvalue) (cs : List ClosedUpvalue)
    → Ordered n os
    → Ordered last (close_loop stack last os cs).0
unfolding close_loop
Ordered-close_last stack last n [] cs ordered = tt
Ordered-close_last stack last n (o ∷ os) cs ordered = elim (Bool-cases (leb last o.location)) [
  | inl h ↦ rw h (Ordered-close_last stack last _ os _ ordered.2)
  | inr h ↦ rw h (ground arith, ordered.1, ordered.2)
]

-- moving an upvalue to the closed ones does not change what it reads
closed_in :
    (stack : List ℕ) (o : OpenUpvalue) (os : List OpenUpvalue) (cs : List ClosedUpvalue) (a : ℕ)
    → location_of os o.address ≡ none
    → read_in stack os (record { address = o.address; closed = slot stack o.location } ∷ cs) a
      ≡ read_in stack (o ∷ os) cs a
closed_in stack o os cs a gone = elim (Bool-cases (o.address == a)) [
  | inl same ↦
      let gone_a = subst (λ b. location_of os b ≡ none) ((==_iff o.address a).0 same) gone in
      rw (same, gone_a) refl
  | inr other ↦ rw other refl
]

pub read_in-close_loop :
    (stack : List ℕ) (last n : ℕ) (os : List OpenUpvalue) (cs : List ClosedUpvalue) (a : ℕ)
    → Ordered n os
    → read_in stack (close_loop stack last os cs).0 (close_loop stack last os cs).1 a
      ≡ read_in stack os cs a
unfolding close_loop
read_in-close_loop stack last n [] cs a ordered = refl
read_in-close_loop stack last n (o ∷ os) cs a ordered = elim (Bool-cases (leb last o.location)) [
  | inr h ↦ rw h refl
  | inl h ↦
      rw h (read_in-close_loop stack last _ os _ a ordered.2 ∙ closed_in stack o os cs a ordered.1)
]

-- a write above the open upvalues
pub read_in-set :
    (stack : List ℕ) (last : ℕ) (os : List OpenUpvalue) (cs : List ClosedUpvalue) (i v a : ℕ)
    → Ordered last os
    → last ≤ i
    → read_in (set stack i v) os cs a ≡ read_in stack os cs a
read_in-set stack last os cs i v a ordered h = elim (Option-cases (location_of os a)) [
  | inl e ↦ rw e refl
  | inr (j, e) ↦
      let below = location_of-lt last os a ordered e in
      rw e (get_or-set_ne stack i j v (λ same. omega (arith, same, below, h)))
]
