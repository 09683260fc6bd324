-- ===== src/Vebc/FunctionTests.antt =====
-- Runs of the functions of the container, and the theorem on a function with an integer, a string and a
-- function among its constants.
use vek.Prelude.{true, false, ◌≡◌, refl, none, some, ◌>>=◌, List, [], ◌∷◌, bytes_eq, arith}
use vek.Value.{ptr_val, int_val}
use vek.Lexer.Keywords.{codes}
use vek.Chunk.{chunk_init}
use vek.Object.{obj_string, obj_function}
use vek.Gc.{Objects}
use vek.Vebc.{vebc_builder_init, vebc_builder_add_string, find_string, vebc_builder_write}
use vek.Vebc.Load.{VebcFile, vebc_load}
use vek.Vebc.Functions.{
  Function, vebc_builder_add_function, add_constants, add_constant, line_entries_of,
}
use vek.Vebc.Entry.{Loaded, value, string, nil, vebc_to_function, vebc_verify}
use vek.Vebc.OneConstant.{as_int, as_pointer}
use vek.Vebc.Gathered.{none_left, and_one}
use vek.Vebc.RoundTrip.{IsWritable}
use vek.Vebc.Tests.{no_hash}
use vek.Sha256.{sha256_compute}
use vek.Vebc.Verify.{vebc_verify-vebc_builder_write}
use vek.Vebc.Assembled.{IsPortable, returned}
use vek.Vebc.WholeFunction.{vebc_to_function-add_function}

abbrev heap : Objects
heap =
    record { address = 16; marked = false; pinned = false; kind = obj_string (codes "hi") }
    ∷ record { address = 32; marked = false; pinned = false; kind = obj_function 0 0 chunk_init 0 }
    ∷ []

abbrev function : Function
function = record {
  arity = 2;
  upvalue_count = 0;
  chunk = record {
    code = 0 ∷ 0 ∷ 27 ∷ [];
    capacity = 8;
    constants = int_val 7 ∷ ptr_val 16 ∷ ptr_val 32 ∷ [];
    const_capacity = 8;
    lines = 1 ∷ 1 ∷ 3 ∷ [];
    line_capacity = 8;
  };
  name = none;
}

abbrev loaded : List Loaded
loaded = value (int_val 7) ∷ string (codes "hi") ∷ nil ∷ []

-- the second byte shares the entry of the first
line-table :
    (vebc_builder_add_function heap vebc_builder_init function).line_entries
    ≡ record { code_offset = 0; source_line = 1 } ∷ record { code_offset = 2; source_line = 3 } ∷ []
unfolding vebc_builder_add_function vebc_builder_add_string find_string add_constants add_constant
    line_entries_of bytes_eq
line-table = refl

function-IsPortable : IsPortable heap function loaded
function-IsPortable = record {
  constants =
      and_one (as_int refl (omega arith) refl)
        (and_one (as_pointer refl refl refl) (and_one (as_pointer refl refl refl) none_left));
  few = omega arith;
  code = omega arith;
  paired = refl;
  lines = ground arith;
}

function-IsWritable : IsWritable (vebc_builder_add_function heap vebc_builder_init function)
unfolding vebc_builder_add_function vebc_builder_add_string find_string add_constants add_constant
    line_entries_of bytes_eq
function-IsWritable = record {
  constants = omega arith;
  payloads = (tt, (tt, (tt, tt)));
  strings = omega arith;
  texts = ground arith;
  functions = omega arith;
  upvalues = omega arith;
  instructions = omega arith;
  lines = omega arith;
  assets = omega arith;
}

vebc_to_function-add_function_example :
    (vebc_load
        (vebc_builder_write no_hash (vebc_builder_add_function heap vebc_builder_init function))
      >>= vebc_to_function)
    ≡ some (returned function loaded)
vebc_to_function-add_function_example =
    vebc_to_function-add_function no_hash heap function loaded function-IsPortable
      function-IsWritable refl

vebc_verify-vebc_builder_write_example :
    (file : VebcFile) × (vebc_load (
        vebc_builder_write sha256_compute
          (vebc_builder_add_function heap vebc_builder_init function))
      ≡ some file)
    × (vebc_verify sha256_compute
          (vebc_builder_write sha256_compute
            (vebc_builder_add_function heap vebc_builder_init function))
          file
        ≡ true)
vebc_verify-vebc_builder_write_example =
    vebc_verify-vebc_builder_write (vebc_builder_add_function heap vebc_builder_init function)
      function-IsWritable
