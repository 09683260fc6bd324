-- ===== src/Value/Tests.antt =====
-- The theorems on src/value.h at single values.
use vek.Prelude.{◌-◌, ◌^◌, ◌≤◌, ◌≡◌, refl, true, false, inr, arith}
use vek.Value.{
  is_float, is_int, is_ptr, int_val, value_as_int, ptr_val, value_as_ptr, double_val, val_true,
  tag_ptr,
}
use vek.Value.Boxes.{
  kinds, kinds_le_one, value_as_int-int_val, value_as_ptr-ptr_val, double_val-nan,
}

kinds_le_one_example : kinds val_true ≤ 1
kinds_le_one_example = kinds_le_one val_true

-- -2
value_as_int-int_val_example :
    (value_as_int (int_val (2 ^ 64 - 2)) ≡ 2 ^ 64 - 2) × (is_int (int_val (2 ^ 64 - 2)) ≡ true)
value_as_int-int_val_example = value_as_int-int_val (2 ^ 64 - 2) (omega arith) (inr (omega arith))

value_as_ptr-ptr_val_example : (value_as_ptr (ptr_val 4096) ≡ 4096) × (is_ptr (ptr_val 4096) ≡ true)
value_as_ptr-ptr_val_example = value_as_ptr-ptr_val 4096 (omega arith) refl

double_val-nan_example :
    (is_float (double_val 0x7FF8000000000001) ≡ false)
    × (is_ptr (double_val tag_ptr) ≡ true)
    × (value_as_ptr (double_val tag_ptr) ≡ 0)
double_val-nan_example = double_val-nan 1 (omega arith)
