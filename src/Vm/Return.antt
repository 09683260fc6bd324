-- ===== src/Vm/Return.antt =====
-- `OP_RETURN` of src/vm.c.
use vek.Prelude.{
  ℕ, suc, ◌-◌, ◌≤◌, ◌<◌, ◌≡◌, refl, ◌≢◌, ◌⊎◌, ◌∙◌, inl, inr, true, false, Bool-cases, List, ◌∷◌,
  length-set, leb, leb→le, ◌==◌, ==_iff, arith,
}
use vek.Vm.{
  CallFrame, Vm, stack_max, slot, read_upvalue, vm_push, vm_pop, close_upvalues, leave, op_return,
  count,
}
use vek.Vm.Upvalues.{Ordered, get_or-set_ne, get_or-set_self, IsMachine}
use vek.Vm.Close.{Ordered-close_loop, Ordered-close_last, read_in-close_loop, read_in-set}

-- The result is in slot `j`, which is now the last one, the slots below the frame's are kept, no open upvalue is in the
-- frame, and each upvalue reads what it read.
pub record IsReturned (vm : Vm) (slots : ℕ) (frames : List CallFrame) (j result : ℕ) (after : Vm)
    : Type 0 where
  pub machine : IsMachine after
  pub top : after.stack_top ≡ suc j
  pub left : after.frames ≡ frames
  pub returned : slot after.stack j ≡ result
  pub kept : (i : ℕ) → (slots ≤ i) ⊎ (slot after.stack i ≡ slot vm.stack i)
  pub detached : Ordered slots after.open_upvalues
  pub reads : (a : ℕ) → read_upvalue after a ≡ read_upvalue vm a

-- closing the frame's upvalues and pushing the result at `j`
landed : Vm → ℕ → List CallFrame → ℕ → ℕ → Vm
landed vm slots frames j result =
    vm_push (record (close_upvalues vm slots) { frames = frames; stack_top = j }) result

landed-IsReturned :
    (vm : Vm) (slots : ℕ) (frames : List CallFrame) (j result : ℕ)
    → IsMachine vm
    → slots ≤ j
    → j < stack_max
    → IsReturned vm slots frames j result (landed vm slots frames j result)
unfolding landed vm_push close_upvalues
landed-IsReturned vm slots frames j result machine low high =
    let os = vm.open_upvalues in
    let cs = vm.closed_upvalues in
    let detached = Ordered-close_last vm.stack slots stack_max os cs machine.ordered in
    elim (Bool-cases (leb stack_max j)) [
      | inl full ↦ absurd (omega (arith, leb→le _ _ full, high))
      | inr room ↦ rw room (record {
        machine = record {
          size = length-set vm.stack j result ∙ machine.size;
          top = omega (arith, high);
          ordered = Ordered-close_loop vm.stack slots stack_max os cs machine.ordered;
        };
        top = refl;
        left = refl;
        returned = get_or-set_self vm.stack j result (omega (arith, high, machine.size));
        kept = λ i. elim (Bool-cases (leb slots i)) [
          | inl above ↦ inl (leb→le _ _ above)
          | inr below ↦ inr (get_or-set_ne vm.stack j i result (λ e. ground (arith, e, below, low)))
        ];
        detached = detached;
        reads = λ a.
            read_in-set vm.stack slots _ _ j result a detached low
            ∙ read_in-close_loop vm.stack slots stack_max os cs a machine.ordered;
      })
    ]

-- A return leaves the frame, of a machine whose stack holds the callee and the result: the result is the last
-- value of the stack, what lies below the frame's slots is kept, no open upvalue points into the frame, and
-- every upvalue reads what it read before. Unless it ends a call from C the result takes the callee's place.
-- If it does, the stack is just one lower than before, so that the callee, its arguments and locals but one
-- are left below the result.
pub op_return-IsReturned :
    (vm : Vm) (f : CallFrame) (fs : List CallFrame)
    → IsMachine vm
    → vm.frames ≡ f ∷ fs
    → suc f.slots < vm.stack_top
    → ((op_return vm).1 ≡ true)
        × (count fs ≡ vm.call_depth)
        × IsReturned vm f.slots fs
            (vm.stack_top - 1 - 1)
            (slot vm.stack (vm.stack_top - 1))
            (op_return vm).0
      ⊎ ((op_return vm).1 ≡ false)
        × (count fs ≢ vm.call_depth)
        × IsReturned vm f.slots fs f.slots (slot vm.stack (vm.stack_top - 1)) (op_return vm).0
unfolding op_return leave landed vm_pop close_upvalues
op_return-IsReturned vm f fs machine e high =
    let result = slot vm.stack (vm.stack_top - 1) in
    elim (Bool-cases (count fs == vm.call_depth)) [
      | inl stop ↦
          simp (e, stop)
            (inl (
              refl,
              (==_iff _ _).0 stop,
              landed-IsReturned vm f.slots fs (vm.stack_top - 1 - 1) result machine (omega arith)
                  (omega (arith, high, machine.top)),
            ))
      | inr goes_on ↦
          simp (e, goes_on)
            (inr (
              refl,
              (λ same. ground (arith, same, goes_on)),
              landed-IsReturned vm f.slots fs f.slots result machine (omega arith)
                  (omega (arith, high, machine.top)),
            ))
    ]
