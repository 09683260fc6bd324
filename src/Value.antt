-- ===== src/Value.antt =====
-- The boxed values of src/value.h. A `Value` is its 64 bits as a number, a double its bit pattern and an
-- `int64_t` its two's complement; masking high bits is a quotient, masking low bits a remainder, and `|`
-- of disjoint bits a sum.
pub mod Boxes
mod Tests
use vek.Prelude.{
  ℕ, ◌+◌, ◌*◌, ◌/◌, ◌%◌, ◌^◌, Bool, true, false, not, ◌&&◌, ◌||◌, leb, ◌==◌, if◌then◌else◌,
}

abbrev pub tag_ptr : ℕ
tag_ptr = 0x7FF8 * 2 ^ 48

abbrev pub tag_int : ℕ
tag_int = 0x7FF9 * 2 ^ 48

abbrev pub val_false : ℕ
val_false = 0x7FFA * 2 ^ 48

abbrev pub val_true : ℕ
val_true = 0x7FFA * 2 ^ 48 + 2 ^ 47

abbrev pub val_nil : ℕ
val_nil = 0x7FFB * 2 ^ 48

abbrev pub val_undefined : ℕ
val_undefined = 0x7FFB * 2 ^ 48 + 2 ^ 47

-- the top 13 bits
abbrev pub is_float : ℕ → Bool
is_float v = not (v / 2 ^ 51 == 0xFFF)

abbrev pub is_int : ℕ → Bool
is_int v = v / 2 ^ 48 == 0x7FF9

abbrev pub is_ptr : ℕ → Bool
is_ptr v = v / 2 ^ 48 == 0x7FF8 && v % 16 == 0

abbrev pub is_bool : ℕ → Bool
is_bool v = v == val_true || v == val_false

abbrev pub is_nil : ℕ → Bool
is_nil v = v == val_nil

abbrev pub is_undefined : ℕ → Bool
is_undefined v = v == val_undefined

abbrev pub double_val : ℕ → ℕ
double_val d = d

abbrev pub value_as_double : ℕ → ℕ
value_as_double v = v

abbrev pub int_val : ℕ → ℕ
int_val i = tag_int + i % 2 ^ 48

-- sign extension from bit 47
abbrev pub value_as_int : ℕ → ℕ
value_as_int v = if leb (2 ^ 47) (v % 2 ^ 48) then v % 2 ^ 48 + 0xFFFF * 2 ^ 48 else v % 2 ^ 48

abbrev pub ptr_val : ℕ → ℕ
ptr_val p = tag_ptr + p % 2 ^ 47

abbrev pub value_as_ptr : ℕ → ℕ
value_as_ptr v = v % 2 ^ 47

abbrev pub bool_val : Bool → ℕ
bool_val b = if b then val_true else val_false

abbrev pub as_bool : ℕ → Bool
as_bool v = v == val_true

abbrev pub is_falsy : ℕ → Bool
is_falsy v = v == val_nil || v == val_false

-- `double_eq` is the machine's comparison of doubles.
unfoldable pub value_equal : (ℕ → ℕ → Bool) → ℕ → ℕ → Bool
value_equal double_eq a b =
    if is_float a && is_float b then double_eq (value_as_double a) (value_as_double b) else a == b
