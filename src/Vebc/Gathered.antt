-- ===== src/Vebc/Gathered.antt =====
-- The constants that `vebc_builder_add_function` gathers from a function.
use vek.Prelude.{
  ℕ, ◌+◌, ◌^◌, ◌≤◌, ◌<◌, ◌≡◌, refl, sym, ap, ap₂, ◌∙◌, false, List, [], ◌∷◌, ◌++◌, append_assoc,
  append-nil, map, Bytes, length, length-append, leb, arith, All,
}
use vek.Gc.{Objects}
use vek.Vebc.{VebcConstant, VebcBuilder}
use vek.Vebc.Functions.{add_constant, add_constants, max_constants}
use vek.Vebc.Entry.{Loaded}
use vek.Vebc.Constants.{resolve, FitsField}
use vek.Vebc.OneConstant.{AddsOne, IsLoadedAs, SameRest, SameRest-self, one_constant}

-- the constants of a function, one after the other
pub data AllLoadedAs (heap : Objects) : List ℕ → List Loaded → Type 0 where
  none_left : AllLoadedAs heap [] []
  and_one :
      {v : ℕ} {l : Loaded} {vs : List ℕ} {ls : List Loaded}
      → IsLoadedAs heap v l
      → AllLoadedAs heap vs ls
      → AllLoadedAs heap (v ∷ vs) (l ∷ ls)

pub record AddsAll (b b' : VebcBuilder) (ls : List Loaded) : Type 0 where
  pub new : List VebcConstant
  pub more : List Bytes
  pub fits : All FitsField new
  pub constants : b'.constants ≡ b.constants ++ new
  pub strings : b'.strings ≡ b.strings ++ more
  pub means : (later : List Bytes) → map (resolve (b'.strings ++ later)) new ≡ ls
  pub same : SameRest b b'

SameRest-then : (a b c : VebcBuilder) → SameRest a b → SameRest b c → SameRest a c
SameRest-then a b c p q = record {
  functions = q.functions ∙ p.functions;
  upvalues = q.upvalues ∙ p.upvalues;
  instructions = q.instructions ∙ p.instructions;
  line_entries = q.line_entries ∙ p.line_entries;
  assets = q.assets ∙ p.assets;
}

adds_then :
    (a b c : VebcBuilder) (l : Loaded) (ls : List Loaded)
    → AddsOne a b l
    → AddsAll b c ls
    → AddsAll a c (l ∷ ls)
adds_then a b c l ls one all = record {
  new = one.constant ∷ all.new;
  more = one.more ++ all.more;
  fits = (one.fits, all.fits);
  constants =
      all.constants
      ∙ ap (λ cs. cs ++ all.new) one.constants
      ∙ append_assoc a.constants (one.constant ∷ []) all.new;
  strings =
      all.strings
      ∙ ap (λ ss. ss ++ all.more) one.strings
      ∙ append_assoc a.strings one.more all.more;
  means = λ later.
      ap₂ ◌∷◌
        (ap (λ ss. resolve ss one.constant)
            (ap (λ ss. ss ++ later) all.strings ∙ append_assoc b.strings all.more later)
          ∙ one.means (all.more ++ later))
        (all.means later);
  same = SameRest-then a b c one.same all.same;
}

pub add_constants-AddsAll :
    (heap : Objects) (k : ℕ) (b : VebcBuilder) (vs : List ℕ) (ls : List Loaded)
    → k < 2 ^ 32
    → AllLoadedAs heap vs ls
    → length b.constants + length vs ≤ 4096
    → length b.strings + length vs ≤ 4096
    → AddsAll b (add_constants heap k b vs) ls
unfolding add_constants resolve
add_constants-AddsAll heap k b [] [] kk none_left h s = record {
  new = [];
  more = [];
  fits = tt;
  constants = sym (append-nil b.constants);
  strings = sym (append-nil b.strings);
  means = λ later. refl;
  same = SameRest-self b b.constants;
}
add_constants-AddsAll heap k b (v ∷ vs) (l ∷ ls) kk (and_one one rest) h s =
    let next = add_constant heap k b v in
    let added = one_constant heap k b v l kk (omega arith) one in
    let room : leb max_constants (length b.constants) ≡ false = ground arith in
    rw (add_constants, room)
      (adds_then b next (add_constants heap k next vs) l ls added (
        add_constants-AddsAll heap k next vs ls kk rest
          (omega
            (arith, ap length added.constants, length-append b.constants (added.constant ∷ [])))
          (omega
            (arith, ap length added.strings, length-append b.strings added.more, added.short))))
add_constants-AddsAll heap k b [] (l ∷ ls) kk x h s = elim x [ ]
add_constants-AddsAll heap k b (v ∷ vs) [] kk x h s = elim x [ ]
