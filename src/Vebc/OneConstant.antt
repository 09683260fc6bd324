-- ===== src/Vebc/OneConstant.antt =====
-- A constant that `vebc_builder_add_function` of src/vebc_writer.c adds, with what it adds to the strings.
use vek.Prelude.{
  ℕ, zero, suc, ◌+◌, ◌^◌, ◌≤◌, ◌<◌, ◌≡◌, refl, sym, ap, ◌∙◌, subst, inl, inr, Bool-cases,
  Option-cases, true, false, Option, none, some, List, [], ◌∷◌, ◌++◌, append-nil, Bytes, length,
  length-append, get_elem?, leb, arith,
}
use vek.Value.{is_int, is_float, int_val, value_as_int}
use vek.Object.{Kind, obj_string, obj_bytes, obj_function}
use vek.Gc.{Objects}
use vek.Vebc.{
  VebcConstant, const_int, const_float, const_string, const_bytes, const_func_ref, VebcBuilder,
  vebc_builder_add_string, find_string, max_strings,
}
use vek.Vebc.Strings.{vebc_builder_add_string-IsInterned}
use vek.Vebc.Functions.{pointee, put_constant, add_pointee, add_constant}
use vek.Vebc.Entry.{Loaded, value, string, bytes, nil, string_at}
use vek.Vebc.Constants.{resolve, FitsField}

-- what a pointer of the constant pool is loaded as
abbrev pub Loads : Option Kind → Loaded → Type 0
Loads (some (obj_string chars)) l = l ≡ string chars
Loads (some (obj_bytes chars)) l = (length chars < 2 ^ 32) × (l ≡ bytes chars)
Loads (some (obj_function arity count chunk name)) l = l ≡ nil
Loads _ l = ⊥

-- What a constant is loaded as: numbers as they are, strings and bytes with their contents, and a function
-- as nil. Nothing else can be stored.
pub data IsLoadedAs (heap : Objects) (v : ℕ) (l : Loaded) : Type 0 where
  as_int : is_int v ≡ true → v < 2 ^ 64 → l ≡ value v → IsLoadedAs heap v l
  as_float : is_int v ≡ false → is_float v ≡ true → v < 2 ^ 64 → l ≡ value v → IsLoadedAs heap v l
  as_pointer :
      is_int v ≡ false → is_float v ≡ false → Loads (pointee heap v) l → IsLoadedAs heap v l

-- the fields apart from the strings and the constants
pub record SameRest (b b' : VebcBuilder) : Type 0 where
  pub functions : b'.functions ≡ b.functions
  pub upvalues : b'.upvalues ≡ b.upvalues
  pub instructions : b'.instructions ≡ b.instructions
  pub line_entries : b'.line_entries ≡ b.line_entries
  pub assets : b'.assets ≡ b.assets

-- `b` becomes `b'` with one more constant, which is loaded as `l` whatever strings follow
pub record AddsOne (b b' : VebcBuilder) (l : Loaded) : Type 0 where
  pub constant : VebcConstant
  pub more : List Bytes
  pub fits : FitsField constant
  pub constants : b'.constants ≡ b.constants ++ constant ∷ []
  pub strings : b'.strings ≡ b.strings ++ more
  pub short : length more ≤ 1
  pub means : (later : List Bytes) → resolve (b'.strings ++ later) constant ≡ l
  pub same : SameRest b b'

pub SameRest-self :
    (b : VebcBuilder) (cs : List VebcConstant) → SameRest b (record b { constants = cs })
SameRest-self b cs = record {
  functions = refl;
  upvalues = refl;
  instructions = refl;
  line_entries = refl;
  assets = refl;
}

-- a constant without a string
plain :
    (b : VebcBuilder) (c : VebcConstant) (l : Loaded)
    → FitsField c
    → ((strings : List Bytes) → resolve strings c ≡ l)
    → AddsOne b (put_constant b c) l
plain b c l h m = record {
  constant = c;
  more = [];
  fits = h;
  constants = refl;
  strings = sym (append-nil b.strings);
  short = omega arith;
  means = λ later. m (b.strings ++ later);
  same = SameRest-self b (b.constants ++ c ∷ []);
}

get-append :
    (xs ys : List Bytes) (i : ℕ) {s : Bytes}
    → get_elem? xs i ≡ some s
    → get_elem? (xs ++ ys) i ≡ some s
get-append [] ys i e = cc
get-append (x ∷ xs) ys zero e = e
get-append (x ∷ xs) ys (suc i) e = get-append xs ys i e

get_lt : (xs : List Bytes) (i : ℕ) {s : Bytes} → get_elem? xs i ≡ some s → i < length xs
get_lt [] i e = cc
get_lt (x ∷ xs) zero e = omega arith
get_lt (x ∷ xs) (suc i) e = omega (arith, get_lt xs i e)

-- adding a string adds at most one, and nothing else
pub record Stringed (b b' : VebcBuilder) : Type 0 where
  pub constants : b'.constants ≡ b.constants
  pub short : length b'.strings ≤ length b.strings + 1
  pub same : SameRest b b'

same_but : (b : VebcBuilder) (ss : List Bytes) → SameRest b (record b { strings = ss })
same_but b ss = record {
  functions = refl;
  upvalues = refl;
  instructions = refl;
  line_entries = refl;
  assets = refl;
}

pub add_string-Stringed :
    (b : VebcBuilder) (str : Bytes) → Stringed b (vebc_builder_add_string b str).0
unfolding vebc_builder_add_string
add_string-Stringed b str = elim (Option-cases (find_string b.strings str 0)) [
  | inr (i, e) ↦
      rw (vebc_builder_add_string, e)
        (record { constants = refl; short = omega arith; same = same_but b b.strings })
  | inl e ↦ elim (Bool-cases (leb max_strings (length b.strings))) [
    | inl full ↦
        rw (vebc_builder_add_string, e, full)
          (record { constants = refl; short = omega arith; same = same_but b b.strings })
    | inr room ↦
        rw (vebc_builder_add_string, e, room)
          (record {
            constants = refl;
            short = omega (arith, length-append b.strings (str ∷ []));
            same = same_but b (b.strings ++ str ∷ []);
          })
  ]
]

string_constant :
    (b : VebcBuilder) (chars : Bytes)
    → length b.strings < max_strings
    → AddsOne b
        (put_constant
          (vebc_builder_add_string b chars).0
          (const_string (vebc_builder_add_string b chars).1))
        (string chars)
unfolding resolve string_at
string_constant b chars room =
    let (b', i, e, interned) = vebc_builder_add_string-IsInterned b chars room in
    let s = subst (λ (r : VebcBuilder × ℕ). Stringed b r.0) e (add_string-Stringed b chars) in
    subst (λ (r : VebcBuilder × ℕ). AddsOne b (put_constant r.0 (const_string r.1)) (string chars))
      (sym e)
      (record {
        constant = const_string i;
        more = interned.more;
        fits = omega (arith, get_lt b'.strings i interned.holds, s.short);
        constants = ap (λ cs. cs ++ const_string i ∷ []) s.constants;
        strings = interned.grown;
        short =
            omega (arith, ap length interned.grown, length-append b.strings interned.more, s.short);
        means = λ later. rw (string_at, get-append b'.strings later i interned.holds) refl;
        same = record {
          functions = s.same.functions;
          upvalues = s.same.upvalues;
          instructions = s.same.instructions;
          line_entries = s.same.line_entries;
          assets = s.same.assets;
        };
      })

pointer_constant :
    (k : ℕ) (b : VebcBuilder) (o : Option Kind) (l : Loaded)
    → k < 2 ^ 32
    → length b.strings < max_strings
    → Loads o l
    → AddsOne b (add_pointee k b o) l
unfolding resolve
pointer_constant k b (some (obj_string chars)) l kk room h =
    subst (AddsOne b (add_pointee k b (some (obj_string chars)))) (sym h)
      (string_constant b chars room)
pointer_constant k b (some (obj_bytes chars)) l kk room h =
    plain b (const_bytes chars) l h.0 (λ strings. sym h.1)
pointer_constant k b (some (obj_function arity count chunk name)) l kk room h =
    plain b (const_func_ref k) l kk (λ strings. sym h)
pointer_constant k b none l kk room h = elim h [ ]
pointer_constant k b (some _) l kk room h = elim h [ ]

as_int_lt : (v : ℕ) → value_as_int v < 2 ^ 64
as_int_lt v = ground arith

-- sign extension and boxing give the value back
int_back : (v : ℕ) → is_int v ≡ true → int_val (value_as_int v) ≡ v
int_back v h = ground (arith, h)

pub one_constant :
    (heap : Objects) (k : ℕ) (b : VebcBuilder) (v : ℕ) (l : Loaded)
    → k < 2 ^ 32
    → length b.strings < max_strings
    → IsLoadedAs heap v l
    → AddsOne b (add_constant heap k b v) l
unfolding add_constant resolve
one_constant heap k b v l kk room (as_int i small e) = rw i (
    plain b (const_int (value_as_int v)) l (as_int_lt v)
      (λ strings. ap value (int_back v i) ∙ sym e))
one_constant heap k b v l kk room (as_float n f small e) =
    rw (n, f) (plain b (const_float v) l small (λ strings. sym e))
one_constant heap k b v l kk room (as_pointer n f h) =
    rw (n, f) (pointer_constant k b (pointee heap v) l kk room h)
