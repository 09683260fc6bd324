-- ===== src/Router/Valid.antt =====
-- The bounds that src/router.h sets for a node of the trie, and that `router_add` keeps.
use vek.Prelude.{
  ℕ, suc, ◌≤◌, ◌<◌, Bool, Bool-cases, ◌≡◌, ◌∙◌, refl, sym, ap, subst, inl, inr, Option, some, none,
  List, [], ◌∷◌, Bytes, length, leb, arith, length-set, length-take, Option-cases,
}
use mathlib.Core.Option.{some-injective}
use vek.Router.{
  RouterNode, Nodes, node, cons, nil, Handler, is_same, child_count, max_children, max_segment,
  method_count, node_new, modify_child, find_or_create_child, append_child, add_at, pattern_of,
}
use vek.Router.Add.{
  Pattern, find_child, find_child-here, find_child-there, find_or_create_child-found,
  find_or_create_child-full, find_or_create_child-new,
}

-- At most 127 bytes of name, seven handlers and at most 32 children, in the whole trie.
unfoldable mutual
  pub IsValid : RouterNode → Type 0
  IsValid (node name param handlers kids) =
      (length name < max_segment)
      × (length handlers ≡ method_count)
      × (child_count kids ≤ max_children)
      × AllValid kids

  pub AllValid : Nodes → Type 0
  AllValid nil = Unit
  AllValid (cons child rest) = IsValid child × AllValid rest

pub node_new-IsValid : (name : Bytes) (param : Bool) → IsValid (node_new name param)
unfolding IsValid node_new
node_new-IsValid name param = (omega (arith, length-take 127 name), refl, omega arith, tt)

abbrev IsFine : Nodes → Type 0
IsFine kids = AllValid kids × (child_count kids ≤ max_children)

same_children :
    (new kids' kids : Nodes)
    → new ≡ kids'
    → AllValid new × (child_count new ≡ child_count kids)
    → AllValid kids' × (child_count kids' ≡ child_count kids)
same_children new kids' kids e v =
    subst (λ (k : Nodes). AllValid k × (child_count k ≡ child_count kids)) e v

module _ (go : RouterNode → RouterNode)
    (keeps : (n : RouterNode) → IsValid n → IsValid (go n)) where
  modify_child-AllValid :
      (kids kids' : Nodes) (name : Bytes) (param : Bool)
      → AllValid kids
      → modify_child kids name param go ≡ some kids'
      → AllValid kids' × (child_count kids' ≡ child_count kids)
  unfolding modify_child IsValid
  modify_child-AllValid nil kids' name param v h = cc
  modify_child-AllValid (cons child rest) kids' name param v h =
      elim (Bool-cases (is_same child name param)) [
        | inl e ↦
            let here : modify_child (cons child rest) name param go ≡ some (cons (go child) rest) =
              rw e refl in
            same_children (cons (go child) rest) kids' (cons child rest)
              (some-injective _ _ (sym here ∙ h)) ((keeps child v.0, v.1), refl)
        | inr e ↦ elim (Option-cases (modify_child rest name param go)) [
          | inl f ↦
              let there : modify_child (cons child rest) name param go ≡ none = rw (e, f) refl in
              cc (there, h)
          | inr (rest', f) ↦
              let there : modify_child (cons child rest) name param go ≡ some (cons child rest') =
                rw (e, f) refl in
              let (a, b) = modify_child-AllValid rest rest' name param v.1 f in
              same_children (cons child rest') kids' (cons child rest)
                (some-injective _ _ (sym there ∙ h)) ((v.0, a), ap suc b)
        ]
      ]

  append_child-AllValid :
      (kids : Nodes) (new : RouterNode)
      → AllValid kids
      → IsValid new
      → AllValid (append_child kids new)
        × (child_count (append_child kids new) ≡ suc (child_count kids))
  unfolding IsValid
  append_child-AllValid nil new v w = ((w, tt), refl)
  append_child-AllValid (cons child rest) new v w =
      let (a, b) = append_child-AllValid rest new v.1 w in ((v.0, a), ap suc b)

  find_or_create_child-AllValid :
      (kids : Nodes) (name : Bytes) (param : Bool)
      → AllValid kids
      → child_count kids ≤ max_children
      → AllValid (find_or_create_child kids name param go)
        × (child_count (find_or_create_child kids name param go) ≤ max_children)
  find_or_create_child-AllValid kids name param v room =
      let fresh = node_new name param in
      elim (Option-cases (modify_child kids name param go)) [
        | inl e ↦ elim (Bool-cases (leb max_children (child_count kids))) [
          | inl f ↦ subst IsFine (sym (find_or_create_child-full kids name param go e f)) (v, room)
          | inr f ↦
              let (a, b) =
                append_child-AllValid kids (go fresh) v
                  (keeps fresh (node_new-IsValid name param)) in
              subst IsFine (sym (find_or_create_child-new kids name param go e f))
                (a, ground (arith, b, f))
        ]
        | inr (kids', e) ↦
            let (a, b) = modify_child-AllValid kids kids' name param v e in
            subst IsFine (sym (find_or_create_child-found kids name param go kids' e))
              (a, omega (arith, b, room))
      ]

pub add_at-IsValid :
    (ss : List Bytes) (n : RouterNode) (method : ℕ) (h : Option Handler)
    → IsValid n
    → IsValid (add_at ss n method h)
unfolding add_at IsValid
add_at-IsValid [] (node name param hs kids) method h (short, seven, room, v) =
    (short, length-set hs method h ∙ seven, room, v)
add_at-IsValid (s ∷ ss) (node name param hs kids) method h (short, seven, room, v) =
    let (v', room') =
      find_or_create_child-AllValid (λ (child : RouterNode). add_at ss child method h)
        (λ n w. add_at-IsValid ss n method h w) kids (pattern_of s).0 (pattern_of s).1 v room in
    (short, seven, room', v')

pub find_child-IsValid :
    (kids : Nodes) (q : Pattern) (c : RouterNode)
    → AllValid kids
    → find_child kids q ≡ some c
    → IsValid c
unfolding IsValid
find_child-IsValid nil q c v h = cc
find_child-IsValid (cons child rest) q c v h = elim (Bool-cases (is_same child q.0 q.1)) [
  | inl e ↦ subst IsValid (some-injective child c (sym (find_child-here child rest q e) ∙ h)) v.0
  | inr e ↦ find_child-IsValid rest q c v.1 (sym (find_child-there child rest q e) ∙ h)
]
