-- ===== src/Router/Add.antt =====
-- The table that the trie of src/router.c stands for, and the step of `find_or_create_child`.
use vek.Prelude.{
  ℕ, ◌-◌, Bool, true, false, not, ◌&&◌, Bool-cases, ◌≡◌, ◌∙◌, refl, sym, ap, inl, inr, Option, some,
  none, List, [], ◌∷◌, Bytes, length, ltb, leb, arith, bytes_eq, bytes_eq→eq, bytes_eq_self,
  if◌then◌else◌,
}
use mathlib.Core.Option.{some-injective}
use vek.Router.{
  RouterNode, Nodes, cons, nil, Handler, segment, is_param, handler, children, child_count,
  max_children, max_segment, node_new, is_same, modify_child, find_or_create_child, append_child,
}

abbrev pub Pattern : Type 0
Pattern = Bytes × Bool

-- the first child with the name and the kind
abbrev pub find_child : Nodes → Pattern → Option RouterNode
find_child nil q = none
find_child (cons child rest) q = if is_same child q.0 q.1 then some child else find_child rest q

-- the handler that is registered for the patterns
unfoldable pub handler_at : List Pattern → RouterNode → ℕ → Option Handler
handler_at [] n method = handler n method
handler_at (q ∷ qs) n method = elim (find_child (children n) q) [
  | none ↦ none
  | some child ↦ handler_at qs child method
]

-- The names that are new fit, and each node that gets a child has room for it.
unfoldable pub fits : List Pattern → RouterNode → Bool
fits [] n = true
fits (q ∷ qs) n = elim (find_child (children n) q) [
  | none ↦
      leb (length q.0) (max_segment - 1)
      && ltb (child_count (children n)) max_children
      && fits qs (node_new q.0 q.1)
  | some child ↦ fits qs child
]

same_kind : (a b : Bool) → (if a then b else not b) ≡ true → a ≡ b
same_kind true b h = sym h
same_kind false true h = cc
same_kind false false h = refl

kind_same : (a : Bool) → (if a then a else not a) ≡ true
kind_same true = refl
kind_same false = refl

and-true : (a b : Bool) → (a && b) ≡ true → (a ≡ true) × (b ≡ true)
and-true a b h = ground arith

pub is_same→eq :
    (child : RouterNode) (q : Pattern)
    → is_same child q.0 q.1 ≡ true
    → (segment child ≡ q.0) × (is_param child ≡ q.1)
is_same→eq child (name, param) h =
    let (k, e) =
      and-true (if is_param child then param else not param) (bytes_eq (segment child) name) h in
    (bytes_eq→eq (segment child) name e, same_kind (is_param child) param k)

pub is_same_self :
    (child : RouterNode) (q : Pattern)
    → segment child ≡ q.0
    → is_param child ≡ q.1
    → is_same child q.0 q.1 ≡ true
is_same_self child (name, param) e k = rw (e, k) (rw (kind_same param) (bytes_eq_self name))

-- two different patterns are not the key of one child
apart :
    (child : RouterNode) (q r : Pattern)
    → ¬ ((r.0 ≡ q.0) × (r.1 ≡ q.1))
    → is_same child q.0 q.1 ≡ true
    → is_same child r.0 r.1 ≡ false
apart child q r ne e = elim (Bool-cases (is_same child r.0 r.1)) [
  | inl e' ↦
      let (a, b) = is_same→eq child q e in
      let (c, d) = is_same→eq child r e' in absurd (ne (sym c ∙ a, sym d ∙ b))
  | inr e' ↦ e'
]

pub find_child-here :
    (child : RouterNode) (rest : Nodes) (q : Pattern)
    → is_same child q.0 q.1 ≡ true
    → find_child (cons child rest) q ≡ some child
find_child-here child rest q e = rw e refl

pub find_child-there :
    (child : RouterNode) (rest : Nodes) (q : Pattern)
    → is_same child q.0 q.1 ≡ false
    → find_child (cons child rest) q ≡ find_child rest q
find_child-there child rest q e = rw e refl

-- The first child answers alike in two lists, and the others do by assumption.
find_child-cons :
    (child : RouterNode) (rest rest' : Nodes) (q : Pattern)
    → find_child rest' q ≡ find_child rest q
    → find_child (cons child rest') q ≡ find_child (cons child rest) q
find_child-cons child rest rest' q e =
    ap (λ (o : Option RouterNode). if is_same child q.0 q.1 then some child else o) e

-- What the caller does to a child keeps its name and kind.
pub record KeepsKey (go : RouterNode → RouterNode) : Type 0 where
  pub name : (n : RouterNode) → segment (go n) ≡ segment n
  pub kind : (n : RouterNode) → is_param (go n) ≡ is_param n

module _ (q : Pattern) (go : RouterNode → RouterNode) (keeps : KeepsKey go) where
  same-go : (n : RouterNode) (r : Pattern) → is_same (go n) r.0 r.1 ≡ is_same n r.0 r.1
  same-go n r = rw (keeps.name n, keeps.kind n) refl

  -- the children `kids'` after a step of the walk, which went on with `go c`
  pub record IsStep (kids kids' : Nodes) (c : RouterNode) : Type 0 where
    pub found : find_child kids' q ≡ some (go c)
    pub others :
        (r : Pattern) → ¬ ((r.0 ≡ q.0) × (r.1 ≡ q.1)) → find_child kids' r ≡ find_child kids r

  replaced-IsStep :
      (child : RouterNode) (rest : Nodes) (c : RouterNode)
      → is_same child q.0 q.1 ≡ true
      → child ≡ c
      → IsStep (cons child rest) (cons (go child) rest) c
  replaced-IsStep child rest c e eq = record {
    found =
        find_child-here (go child) rest q (same-go child q ∙ e)
        ∙ ap (λ (n : RouterNode). some (go n)) eq;
    others = λ r ne.
        let f = apart child q r ne e in
        find_child-there (go child) rest r (same-go child r ∙ f)
        ∙ sym (find_child-there child rest r f);
  }

  later-IsStep :
      (child : RouterNode) (rest rest' : Nodes) (c : RouterNode)
      → is_same child q.0 q.1 ≡ false
      → IsStep rest rest' c
      → IsStep (cons child rest) (cons child rest') c
  later-IsStep child rest rest' c e s = record {
    found = find_child-there child rest' q e ∙ s.found;
    others = λ r ne. find_child-cons child rest rest' r (s.others r ne);
  }

  pub modify_child-none :
      (kids : Nodes) → find_child kids q ≡ none → modify_child kids q.0 q.1 go ≡ none
  unfolding modify_child
  modify_child-none nil h = refl
  modify_child-none (cons child rest) h = elim (Bool-cases (is_same child q.0 q.1)) [
    | inl e ↦ cc (find_child-here child rest q e, h)
    | inr e ↦ rw (e, modify_child-none rest (sym (find_child-there child rest q e) ∙ h)) refl
  ]

  pub modify_child-some :
      (kids : Nodes) (c : RouterNode)
      → find_child kids q ≡ some c
      → (kids' : Nodes) × (modify_child kids q.0 q.1 go ≡ some kids') × IsStep kids kids' c
  unfolding modify_child
  modify_child-some nil c h = cc
  modify_child-some (cons child rest) c h = elim (Bool-cases (is_same child q.0 q.1)) [
    | inl e ↦ (
      cons (go child) rest,
      rw e refl,
      replaced-IsStep child rest c e
          (some-injective child c (sym (find_child-here child rest q e) ∙ h)),
    )
    | inr e ↦
        let (rest', eq, s) = modify_child-some rest c (sym (find_child-there child rest q e) ∙ h) in
        (cons child rest', rw (e, eq) refl, later-IsStep child rest rest' c e s)
  ]

  pub append_child-IsStep :
      (kids : Nodes) (c : RouterNode)
      → find_child kids q ≡ none
      → is_same c q.0 q.1 ≡ true
      → IsStep kids (append_child kids (go c)) c
  append_child-IsStep nil c h e = record {
    found = rw (same-go c q, e) refl;
    others = (λ r ne. find_child-there (go c) nil r (same-go c r ∙ apart c q r ne e));
  }
  append_child-IsStep (cons child rest) c h e = elim (Bool-cases (is_same child q.0 q.1)) [
    | inl f ↦ cc (find_child-here child rest q f, h)
    | inr f ↦
        later-IsStep child rest (append_child rest (go c)) c f
          (append_child-IsStep rest c (sym (find_child-there child rest q f) ∙ h) e)
  ]

module _ (kids : Nodes) (name : Bytes) (param : Bool) (go : RouterNode → RouterNode) where
  -- the three ways in which `find_or_create_child` goes on
  pub find_or_create_child-found :
      (kids' : Nodes)
      → modify_child kids name param go ≡ some kids'
      → find_or_create_child kids name param go ≡ kids'
  unfolding find_or_create_child
  find_or_create_child-found kids' e = rw (find_or_create_child, e) refl

  pub find_or_create_child-full :
      modify_child kids name param go ≡ none
      → leb max_children (child_count kids) ≡ true
      → find_or_create_child kids name param go ≡ kids
  unfolding find_or_create_child
  find_or_create_child-full e f = rw (find_or_create_child, e, f) refl

  pub find_or_create_child-new :
      modify_child kids name param go ≡ none
      → leb max_children (child_count kids) ≡ false
      → find_or_create_child kids name param go ≡ append_child kids (go (node_new name param))
  unfolding find_or_create_child
  find_or_create_child-new e f = rw (find_or_create_child, e, f) refl
