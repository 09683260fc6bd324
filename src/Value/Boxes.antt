-- ===== src/Value/Boxes.antt =====
-- Boxing and the tests of src/value.h.
use vek.Prelude.{ℕ, ◌+◌, ◌-◌, ◌%◌, ◌^◌, ◌≤◌, ◌<◌, Bool, true, false, ◌≡◌, ◌⊎◌, if◌then◌else◌, arith}
use vek.Value.{
  is_float, is_int, is_ptr, is_bool, is_nil, is_undefined, int_val, value_as_int, ptr_val,
  value_as_ptr, double_val, tag_ptr,
}

abbrev pub one_if : Bool → ℕ
one_if b = if b then 1 else 0

-- how many of the tests a value passes
abbrev pub kinds : ℕ → ℕ
kinds v =
    one_if (is_float v)
    + one_if (is_int v)
    + one_if (is_ptr v)
    + one_if (is_bool v)
    + one_if (is_nil v)
    + one_if (is_undefined v)

-- A value passes at most one of the six tests for its kind.
pub kinds_le_one : (v : ℕ) → kinds v ≤ 1
kinds_le_one v = ground arith

-- An integer that fits 48 bits with its sign comes back from its box, and the box passes the test for
-- integers.
pub value_as_int-int_val :
    (i : ℕ)
    → i < 2 ^ 64
    → (i < 2 ^ 47) ⊎ (2 ^ 64 - 2 ^ 47 ≤ i)
    → (value_as_int (int_val i) ≡ i) × (is_int (int_val i) ≡ true)
value_as_int-int_val i lt fits = (ground arith, ground arith)

-- A 16-byte aligned address of 47 bits comes back from its box, and the box passes the test for
-- pointers.
pub value_as_ptr-ptr_val :
    (p : ℕ) → p < 2 ^ 47 → p % 16 ≡ 0 → (value_as_ptr (ptr_val p) ≡ p) × (is_ptr (ptr_val p) ≡ true)
value_as_ptr-ptr_val p lt aligned = (ground arith, ground arith)

-- A quiet NaN whose sign bit is clear does not pass the test for floats once it is boxed, and the one
-- without a payload passes the test for pointers, as the null pointer.
pub double_val-nan :
    (payload : ℕ)
    → payload < 2 ^ 51
    → (is_float (double_val (tag_ptr + payload)) ≡ false)
      × (is_ptr (double_val tag_ptr) ≡ true)
      × (value_as_ptr (double_val tag_ptr) ≡ 0)
double_val-nan payload lt = (ground arith, ground arith, ground arith)
