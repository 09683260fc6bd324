-- ===== src/Vm.antt =====
-- The stack, the frames and the upvalues of src/vm.c. A pointer into the stack is an index of it. An upvalue
-- is known by its address: while its location is a slot it is in the list of open upvalues, in the order of
-- the `next` fields; when its location is its own field it is among the closed ones. Of a frame only what
-- calls and returns use is kept.
pub mod Upvalues
pub mod Close
pub mod Capture
pub mod Return
mod Tests
use vek.Prelude.{
  ℕ, zero, suc, ◌+◌, ◌-◌, Bool, true, false, Option, none, some, List, [], ◌∷◌, set, get_or, ltb,
  leb, ◌==◌, if◌then◌else◌,
}

abbrev pub stack_max : ℕ
stack_max = 65536

abbrev pub frames_max : ℕ
frames_max = 256

pub record OpenUpvalue : Type 0 where
  pub address : ℕ
  pub location : ℕ

pub record ClosedUpvalue : Type 0 where
  pub address : ℕ
  pub closed : ℕ

pub record CallFrame : Type 0 where
  pub closure : ℕ
  pub slots : ℕ

-- `frames` has the innermost first.
pub record Vm : Type 0 where
  pub frames : List CallFrame
  pub stack : List ℕ
  pub stack_top : ℕ
  pub open_upvalues : List OpenUpvalue
  pub closed_upvalues : List ClosedUpvalue
  pub had_error : Bool
  pub call_depth : ℕ

unfoldable pub vm_push : Vm → ℕ → Vm
vm_push vm value =
    if leb stack_max vm.stack_top
    then record vm { had_error = true }
    else record vm { stack = set vm.stack vm.stack_top value; stack_top = suc vm.stack_top }

-- the value at a slot
abbrev pub slot : List ℕ → ℕ → ℕ
slot stack i = get_or stack i 0

-- the stack is not empty
unfoldable pub vm_pop : Vm → Vm × ℕ
vm_pop vm = (record vm { stack_top = vm.stack_top - 1 }, slot vm.stack (vm.stack_top - 1))

abbrev pub vm_peek : Vm → ℕ → ℕ
vm_peek vm distance = slot vm.stack (vm.stack_top - 1 - distance)

-- the slot of an open upvalue
abbrev pub location_of : List OpenUpvalue → ℕ → Option ℕ
location_of [] a = none
location_of (o ∷ os) a = if o.address == a then some o.location else location_of os a

-- the `closed` field; it is nil, written 0 here, before the upvalue is closed
abbrev pub closed_of : List ClosedUpvalue → ℕ → ℕ
closed_of [] a = 0
closed_of (c ∷ cs) a = if c.address == a then c.closed else closed_of cs a

-- the search for the place of a slot, with the upvalue's address; a new one has the address given
unfoldable pub insert_upvalue : ℕ → ℕ → List OpenUpvalue → List OpenUpvalue × ℕ
insert_upvalue local fresh [] = (record { address = fresh; location = local } ∷ [], fresh)
insert_upvalue local fresh (o ∷ os) =
    let (rest, a) = insert_upvalue local fresh os in
    if ltb local o.location
    then (o ∷ rest, a)
    else if o.location == local
    then (o ∷ os, o.address)
    else (record { address = fresh; location = local } ∷ o ∷ os, fresh)

-- with the address that the allocation of a new upvalue gives
unfoldable pub capture_upvalue : Vm → ℕ → ℕ → Vm × ℕ
capture_upvalue vm local fresh =
    let (os, a) = insert_upvalue local fresh vm.open_upvalues in
    (record vm { open_upvalues = os }, a)

-- the loop that closes the upvalues at the front
unfoldable pub close_loop :
    List ℕ → ℕ → List OpenUpvalue → List ClosedUpvalue → List OpenUpvalue × List ClosedUpvalue
close_loop stack last [] cs = ([], cs)
close_loop stack last (o ∷ os) cs =
    let rest =
      close_loop stack last os
        (record { address = o.address; closed = slot stack o.location } ∷ cs) in
    if leb last o.location then rest else (o ∷ os, cs)

unfoldable pub close_upvalues : Vm → ℕ → Vm
close_upvalues vm last =
    let (os, cs) = close_loop vm.stack last vm.open_upvalues vm.closed_upvalues in
    record vm { open_upvalues = os; closed_upvalues = cs }

-- what `*upvalue->location` reads
abbrev pub at_location : List ℕ → Option ℕ → ℕ → ℕ
at_location stack none closed = closed
at_location stack (some i) closed = slot stack i

abbrev pub read_upvalue : Vm → ℕ → ℕ
read_upvalue vm a =
    at_location vm.stack (location_of vm.open_upvalues a) (closed_of vm.closed_upvalues a)

-- `*upvalue->location = value`
abbrev pub store : Vm → ℕ → ℕ → Option ℕ → Vm
store vm a value (some i) = record vm { stack = set vm.stack i value }
store vm a value none = record vm {
  closed_upvalues = record { address = a; closed = value } ∷ vm.closed_upvalues;
}

-- on the address of the closure's upvalue
unfoldable pub op_get_upvalue : Vm → ℕ → Vm
op_get_upvalue vm a = vm_push vm (read_upvalue vm a)

unfoldable pub op_set_upvalue : Vm → ℕ → Vm
op_set_upvalue vm a = store vm a (vm_peek vm 0) (location_of vm.open_upvalues a)

unfoldable pub op_close_upvalue : Vm → Vm
op_close_upvalue vm = (vm_pop (close_upvalues vm (vm.stack_top - 1))).0

abbrev pub count : List CallFrame → ℕ
count [] = 0
count (f ∷ fs) = suc (count fs)

-- on the closure's address and the arity of its function; `none` is a runtime error
unfoldable pub call_closure : Vm → ℕ → ℕ → ℕ → Option Vm
call_closure vm closure arity arg_count =
    if arg_count == arity
    then (if count vm.frames == frames_max
        then none
        else some (record vm {
          frames = record { closure = closure; slots = vm.stack_top - arg_count - 1 } ∷ vm.frames;
        }))
    else none

-- the end of a return: whether the machine stops, as `vm_call` asked it to
unfoldable pub leave : Vm → ℕ → ℕ → Vm × Bool
leave vm slots result =
    if count vm.frames == vm.call_depth
    then (vm_push (vm_pop vm).0 result, true)
    else (vm_push (record vm { stack_top = slots }) result, false)

-- on the innermost frame's slots
abbrev pub return_from : Vm → List CallFrame → Vm × Bool
return_from vm [] = (vm, true)
return_from vm (f ∷ fs) =
    let (popped, result) = vm_pop vm in
    leave (record (close_upvalues popped f.slots) { frames = fs }) f.slots result

unfoldable pub op_return : Vm → Vm × Bool
op_return vm = return_from vm vm.frames
