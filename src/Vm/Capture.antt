-- ===== src/Vm/Capture.antt =====
-- `capture_upvalue` of src/vm.c.
use vek.Prelude.{
  ℕ, ◌<◌, ◌≡◌, refl, ◌≢◌, ◌∙◌, ap, inl, inr, false, Bool-cases, none, some, List, [], ◌∷◌, length,
  set, ltb, ltb→lt, ◌==◌, ==_iff, arith, ◌⊎◌,
}
use vek.Vm.{
  OpenUpvalue, Vm, slot, location_of, insert_upvalue, stack_max, read_upvalue, op_set_upvalue,
  vm_peek, capture_upvalue,
}
use vek.Vm.Upvalues.{Ordered, location_of-absent, IsMachine, get_or-set_self}

-- the others stay
pub location_of-insert_ne :
    (local fresh : ℕ) (os : List OpenUpvalue) (a : ℕ)
    → a ≢ fresh
    → location_of (insert_upvalue local fresh os).0 a ≡ location_of os a
unfolding insert_upvalue
location_of-insert_ne local fresh [] a h = ground arith
location_of-insert_ne local fresh (o ∷ os) a h =
    ground (arith, location_of-insert_ne local fresh os a h)

pub Ordered-insert_upvalue :
    (local fresh n : ℕ) (os : List OpenUpvalue)
    → Ordered n os
    → location_of os fresh ≡ none
    → local < n
    → Ordered n (insert_upvalue local fresh os).0
unfolding insert_upvalue
Ordered-insert_upvalue local fresh n [] ordered absent h = (h, refl, tt)
Ordered-insert_upvalue local fresh n (o ∷ os) ordered absent h =
    let (other, later) = location_of-absent o os fresh absent in
    elim (Bool-cases (ltb local o.location)) [
      | inl above ↦ rw above (
        ordered.0,
        location_of-insert_ne local fresh os o.address other ∙ ordered.1,
        Ordered-insert_upvalue local fresh o.location os ordered.2 later (ltb→lt _ _ above),
      )
      | inr below ↦ elim (Bool-cases (o.location == local)) [
        | inl at ↦ rw (below, at) ordered
        | inr off ↦ rw (below, off) (h, absent, (ground arith, ordered.1, ordered.2))
      ]
    ]

location_of-skip :
    (o : OpenUpvalue) (os : List OpenUpvalue) (a : ℕ) {i : ℕ}
    → location_of os a ≡ some i
    → location_of os o.address ≡ none
    → (o.address == a) ≡ false
location_of-skip o os a found gone = elim (Bool-cases (o.address == a)) [
  | inl same ↦ cc (found, gone, ap (location_of os) ((==_iff o.address a).0 same))
  | inr other ↦ other
]

pub location_of-insert_upvalue :
    (local fresh n : ℕ) (os : List OpenUpvalue)
    → Ordered n os
    → location_of os fresh ≡ none
    → location_of (insert_upvalue local fresh os).0 (insert_upvalue local fresh os).1 ≡ some local
unfolding insert_upvalue
location_of-insert_upvalue local fresh n [] ordered absent = ground arith
location_of-insert_upvalue local fresh n (o ∷ os) ordered absent =
    let (other, later) = location_of-absent o os fresh absent in
    elim (Bool-cases (ltb local o.location)) [
      | inl above ↦
          let found = location_of-insert_upvalue local fresh o.location os ordered.2 later in
          let gone = location_of-insert_ne local fresh os o.address other ∙ ordered.1 in
          rw (above, location_of-skip o _ _ found gone) found
      | inr below ↦ elim (Bool-cases (o.location == local)) [
        | inl at ↦
            rw (below, at)
              (rw ((==_iff o.address o.address).1 refl) (ap some ((==_iff o.location local).0 at)))
        | inr off ↦ rw (below, off) (rw ((==_iff fresh fresh).1 refl) refl)
      ]
    ]

pub insert_upvalue-again :
    (local fresh other : ℕ) (os : List OpenUpvalue)
    → insert_upvalue local other (insert_upvalue local fresh os).0 ≡ insert_upvalue local fresh os
unfolding insert_upvalue
insert_upvalue-again local fresh other [] = ground arith
insert_upvalue-again local fresh other (o ∷ os) =
    ground (arith, insert_upvalue-again local fresh other os)

-- The upvalue captures the slot: it shares the variable, one is enough, and the others are unaffected.
pub record IsCaptured (vm : Vm) (local fresh : ℕ) (after : Vm) (a : ℕ) : Type 0 where
  pub machine : IsMachine after
  pub same_stack : after.stack ≡ vm.stack
  pub reads : (v : ℕ) → read_upvalue (record after { stack = set after.stack local v }) a ≡ v
  pub writes : slot (op_set_upvalue after a).stack local ≡ vm_peek after 0
  pub shared : (other : ℕ) → capture_upvalue after local other ≡ (after, a)
  pub others : (b : ℕ) → (b ≡ fresh) ⊎ (read_upvalue after b ≡ read_upvalue vm b)

-- Capturing a slot gives an upvalue that shares it: what is written to the variable is read through the
-- upvalue and the other way round; capturing it again gives the same upvalue and changes nothing; the open
-- upvalues stay in order, and every other upvalue reads what it read before. The address for a new upvalue
-- is not one of an open upvalue.
pub capture_upvalue-IsCaptured :
    (vm : Vm) (local fresh : ℕ)
    → IsMachine vm
    → location_of vm.open_upvalues fresh ≡ none
    → local < stack_max
    → IsCaptured vm local fresh
        (capture_upvalue vm local fresh).0
        (capture_upvalue vm local fresh).1
unfolding capture_upvalue op_set_upvalue
capture_upvalue-IsCaptured vm local fresh machine absent h =
    let os = vm.open_upvalues in
    let located = location_of-insert_upvalue local fresh stack_max os machine.ordered absent in
    let inside : local < length vm.stack = omega (arith, h, machine.size) in
    record {
      machine = record {
        size = machine.size;
        top = machine.top;
        ordered = Ordered-insert_upvalue local fresh stack_max os machine.ordered absent h;
      };
      same_stack = refl;
      reads = λ v. rw located (get_or-set_self vm.stack local v inside);
      writes = rw located (get_or-set_self vm.stack local _ inside);
      shared = λ other. rw (insert_upvalue-again local fresh other os) refl;
      others = λ b. elim (Bool-cases (b == fresh)) [
        | inl same ↦ inl ((==_iff b fresh).0 same)
        | inr other ↦
            inr (rw (location_of-insert_ne local fresh os b (λ e. ground (arith, e, other))) refl)
      ];
    }
