-- ===== src/Vebc/Strings.antt =====
-- The string table of src/vebc_writer.c.
use vek.Prelude.{
  ℕ, suc, ◌+◌, ◌<◌, true, false, Bool-cases, List, [], ◌∷◌, ◌++◌, append-nil, Bytes, length,
  get_elem?, leb, arith, none, some, Option-cases, ◌≡◌, ◌∙◌, refl, sym, ap, inl, inr, bytes_eq,
  bytes_eq→eq, bytes_eq_self,
}
use mathlib.Core.Option.{some-injective}
use vek.Vebc.{VebcBuilder, find_string, vebc_builder_add_string, max_strings}

find_string-here :
    (s str : Bytes) (ss : List Bytes) (i : ℕ)
    → bytes_eq s str ≡ true
    → find_string (s ∷ ss) str i ≡ some i
unfolding find_string
find_string-here s str ss i e = rw e refl

find_string-there :
    (s str : Bytes) (ss : List Bytes) (i : ℕ)
    → bytes_eq s str ≡ false
    → find_string (s ∷ ss) str i ≡ find_string ss str (i + 1)
unfolding find_string
find_string-there s str ss i e = rw e refl

-- what is found stands at the index
find_string-some :
    (ss : List Bytes) (str : Bytes) (i k : ℕ)
    → find_string ss str i ≡ some k
    → (d : ℕ) × (k ≡ i + d) × (get_elem? ss d ≡ some str)
unfolding find_string
find_string-some [] str i k h = cc
find_string-some (s ∷ ss) str i k h = elim (Bool-cases (bytes_eq s str)) [
  | inl e ↦
      let same = some-injective i k (sym (find_string-here s str ss i e) ∙ h) in
      (0, omega (arith, same), ap some (bytes_eq→eq s str e))
  | inr e ↦
      let (d, eq, at) =
        find_string-some ss str (i + 1) k (sym (find_string-there s str ss i e) ∙ h) in
      (suc d, omega (arith, eq), at)
]

-- a string that was missing is found where it is appended
find_string-append :
    (ss : List Bytes) (str : Bytes) (i : ℕ)
    → find_string ss str i ≡ none
    → find_string (ss ++ (str ∷ [])) str i ≡ some (i + length ss)
find_string-append [] str i h =
    find_string-here str str [] i (bytes_eq_self str) ∙ ap some (omega arith)
find_string-append (s ∷ ss) str i h = elim (Bool-cases (bytes_eq s str)) [
  | inl e ↦ cc (find_string-here s str ss i e, h)
  | inr e ↦
      find_string-there s str (ss ++ (str ∷ [])) i e
      ∙ find_string-append ss str (i + 1) (sym (find_string-there s str ss i e) ∙ h)
      ∙ ap some (omega arith)
]

get_elem?-append_last :
    (ss : List Bytes) (str : Bytes) → get_elem? (ss ++ (str ∷ [])) (length ss) ≡ some str
get_elem?-append_last [] str = refl
get_elem?-append_last (s ∷ ss) str = get_elem?-append_last ss str

-- The index that `vebc_builder_add_string` returns, with the builder that it leaves.
pub record IsInterned (b b' : VebcBuilder) (str : Bytes) (i : ℕ) : Type 0 where
  pub holds : get_elem? b'.strings i ≡ some str
  pub more : List Bytes
  pub grown : b'.strings ≡ b.strings ++ more
  pub again : vebc_builder_add_string b' str ≡ (b', i)

add_string-found :
    (b : VebcBuilder) (str : Bytes) (i : ℕ)
    → find_string b.strings str 0 ≡ some i
    → vebc_builder_add_string b str ≡ (b, i)
unfolding vebc_builder_add_string
add_string-found b str i e = rw (vebc_builder_add_string, e) refl

abbrev grown : VebcBuilder → Bytes → VebcBuilder
grown b str = record b { strings = b.strings ++ (str ∷ []) }

add_string-new :
    (b : VebcBuilder) (str : Bytes)
    → length b.strings < max_strings
    → find_string b.strings str 0 ≡ none
    → vebc_builder_add_string b str ≡ (grown b str, length b.strings)
unfolding vebc_builder_add_string
add_string-new b str lt e =
    let room : leb max_strings (length b.strings) ≡ false = ground (arith, lt) in
    rw (vebc_builder_add_string, e, room) refl

-- While the table has room, the index that is returned for a string holds that string, the table keeps
-- its strings at their places, and asking for the string again returns the same index and changes
-- nothing.
pub vebc_builder_add_string-IsInterned :
    (b : VebcBuilder) (str : Bytes)
    → length b.strings < max_strings
    → (b' : VebcBuilder) × (i : ℕ) × (vebc_builder_add_string b str ≡ (b', i))
      × IsInterned b b' str i
vebc_builder_add_string-IsInterned b str lt = elim (Option-cases (find_string b.strings str 0)) [
  | inl e ↦ (
    grown b str,
    length b.strings,
    add_string-new b str lt e,
    record {
      holds = get_elem?-append_last b.strings str;
      more = str ∷ [];
      grown = refl;
      again =
          add_string-found (grown b str) str (length b.strings)
            (find_string-append b.strings str 0 e ∙ ap some (omega arith));
    },
  )
  | inr (i, e) ↦
      let (d, eq, at) = find_string-some b.strings str 0 i e in
      let same : i ≡ d = omega (arith, eq) in
      (
        b,
        i,
        add_string-found b str i e,
        record {
          holds = ap (get_elem? b.strings) same ∙ at;
          more = [];
          grown = sym (append-nil b.strings);
          again = add_string-found b str i e;
        },
      )
]
