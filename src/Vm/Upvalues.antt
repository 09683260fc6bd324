-- ===== src/Vm/Upvalues.antt =====
-- The list of open upvalues: in descending order of the slots, each address once.
use mathlib.Core.Option.{some-injective}
use vek.Prelude.{
  subst, ℕ, zero, suc, ◌≤◌, ◌<◌, ◌≡◌, refl, sym, ◌≢◌, ◌∙◌, ap, inl, inr, Bool-cases, none, some,
  List, [], ◌∷◌, length, set, get_or, ◌==◌, arith,
}
use vek.Vm.{stack_max, OpenUpvalue, ClosedUpvalue, Vm, location_of, closed_of, at_location}

-- below a bound
abbrev pub Ordered : ℕ → List OpenUpvalue → Type 0
Ordered bound [] = Unit
Ordered bound (o ∷ os) =
    (o.location < bound) × (location_of os o.address ≡ none) × Ordered o.location os

pub Ordered-le : (m n : ℕ) (os : List OpenUpvalue) → m ≤ n → Ordered m os → Ordered n os
Ordered-le m n [] h ordered = tt
Ordered-le m n (o ∷ os) h ordered = (omega (arith, ordered.0), ordered.1, ordered.2)

pub location_of-lt :
    (n : ℕ) (os : List OpenUpvalue) (a : ℕ) {i : ℕ}
    → Ordered n os
    → location_of os a ≡ some i
    → i < n
location_of-lt n [] a ordered e = cc
location_of-lt n (o ∷ os) a {i} ordered e = elim (Bool-cases (o.address == a)) [
  | inl same ↦
      let at_o = some-injective _ _ (sym (rw same refl) ∙ e) in subst (λ l. l < n) at_o ordered.0
  | inr other ↦
      let h = location_of-lt o.location os a ordered.2 (sym (rw other refl) ∙ e) in
      omega (arith, h, ordered.0)
]

abbrev pub read_in : List ℕ → List OpenUpvalue → List ClosedUpvalue → ℕ → ℕ
read_in stack os cs a = at_location stack (location_of os a) (closed_of cs a)

pub get_or-set_ne : (xs : List ℕ) (i j v : ℕ) → i ≢ j → get_or (set xs i v) j 0 ≡ get_or xs j 0
get_or-set_ne [] i j v h = refl
get_or-set_ne (x ∷ xs) zero zero v h = absurd (h refl)
get_or-set_ne (x ∷ xs) zero (suc j) v h = refl
get_or-set_ne (x ∷ xs) (suc i) zero v h = refl
get_or-set_ne (x ∷ xs) (suc i) (suc j) v h = get_or-set_ne xs i j v (λ e. h (ap suc e))

pub get_or-set_self : (xs : List ℕ) (i v : ℕ) → i < length xs → get_or (set xs i v) i 0 ≡ v
get_or-set_self [] i v h = absurd (omega arith)
get_or-set_self (x ∷ xs) zero v h = refl
get_or-set_self (x ∷ xs) (suc i) v h = get_or-set_self xs i v (omega arith)

pub location_of-absent :
    (o : OpenUpvalue) (os : List OpenUpvalue) (a : ℕ)
    → location_of (o ∷ os) a ≡ none
    → (o.address ≢ a) × (location_of os a ≡ none)
location_of-absent o os a absent = elim (Bool-cases (o.address == a)) [
  | inl same ↦ cc (rw same at absent)
  | inr other ↦ ((λ e. ground (arith, other, e)), rw other at absent)
]

-- The stack has its size, the top is within it, and the open upvalues are in order and within it.
pub record IsMachine (vm : Vm) : Type 0 where
  pub size : length vm.stack ≡ stack_max
  pub top : vm.stack_top ≤ stack_max
  pub ordered : Ordered stack_max vm.open_upvalues
