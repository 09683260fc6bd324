-- ===== src/Vm/Tests.antt =====
-- Witnesses and runs of the machine of src/vm.c.
use vek.Prelude.{
  length, ℕ, ◌≡◌, ◌≢◌, refl, ◌∙◌, ◌⊎◌, true, false, List, [], ◌∷◌, none, arith, length-set,
  length-replicate, replicate, set,
}
use vek.Vm.{
  stack_max, Vm, CallFrame, slot, count, capture_upvalue, close_upvalues, op_return, call_closure,
  vm_push, vm_pop, vm_peek, leave, insert_upvalue, close_loop, read_upvalue,
}
use vek.Vm.Upvalues.{IsMachine}
use vek.Vm.Capture.{IsCaptured, capture_upvalue-IsCaptured}
use vek.Vm.Return.{IsReturned, op_return-IsReturned}

-- the callee in slot 1 with one argument and one local, both captured, in a call from C
abbrev called : CallFrame
called = record { closure = 4096; slots = 1 }

abbrev with_stack : List ℕ → Vm
with_stack stack = record {
  frames = called ∷ [];
  stack = stack;
  stack_top = 5;
  open_upvalues =
      record { address = 16; location = 3 } ∷ record { address = 32; location = 2 } ∷ [];
  closed_upvalues = [];
  had_error = false;
  call_depth = 0;
}

abbrev small : Vm
small = with_stack (10 ∷ 11 ∷ 12 ∷ 13 ∷ 14 ∷ 0 ∷ [])

return_lowers : (op_return small).0.stack_top ≡ 4
unfolding op_return leave vm_pop vm_push close_upvalues close_loop
return_lowers = refl

return_result : vm_peek (op_return small).0 0 ≡ 14
unfolding op_return leave vm_pop vm_push close_upvalues close_loop
return_result = refl

closed_reads : read_upvalue (op_return small).0 16 ≡ 13
unfolding op_return leave vm_pop vm_push close_upvalues close_loop
closed_reads = refl

captured_between : (capture_upvalue small 1 48).1 ≡ 48
unfolding capture_upvalue insert_upvalue
captured_between = refl

captured_again : (capture_upvalue small 2 48).1 ≡ 32
unfolding capture_upvalue insert_upvalue
captured_again = refl

wrong_arity : call_closure small 4096 2 1 ≡ none
unfolding call_closure
wrong_arity = refl

full_stack : List ℕ
full_stack = set (replicate stack_max 0) 4 14

full_stack-length : length full_stack ≡ stack_max
unfolding full_stack
full_stack-length =
    let zeros : List ℕ = replicate stack_max 0 in
    length-set zeros 4 14 ∙ length-replicate {A = ℕ} stack_max 0

abbrev full : Vm
full = with_stack full_stack

full-IsMachine : IsMachine full
full-IsMachine = record {
  size = full_stack-length;
  top = omega arith;
  ordered = (omega arith, refl, (omega arith, refl, tt));
}

capture_upvalue-IsCaptured_example :
    IsCaptured full 1 48 (capture_upvalue full 1 48).0 (capture_upvalue full 1 48).1
capture_upvalue-IsCaptured_example =
    capture_upvalue-IsCaptured full 1 48 full-IsMachine refl (omega arith)

op_return-IsReturned_example :
    ((op_return full).1 ≡ true)
      × (count [] ≡ 0)
      × IsReturned full 1 [] 3 (slot full_stack 4) (op_return full).0
    ⊎ ((op_return full).1 ≡ false)
      × (count [] ≢ 0)
      × IsReturned full 1 [] 1 (slot full_stack 4) (op_return full).0
op_return-IsReturned_example = op_return-IsReturned full called [] full-IsMachine refl (omega arith)
