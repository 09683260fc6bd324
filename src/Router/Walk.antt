-- ===== src/Router/Walk.antt =====
-- One step of `router_add` in src/router.c: to a child that is found or created.
use vek.Prelude.{
  ℕ, zero, suc, ◌-◌, ◌≤◌, Bool, true, ◌&&◌, ◌≡◌, ◌∙◌, refl, sym, ap, subst, ◌⊎◌, inl, inr, Option,
  some, none, List, [], ◌∷◌, Bytes, length, take, ltb, leb, arith, Option-cases,
}
use vek.Router.{
  RouterNode, Nodes, node, Handler, segment, is_param, children, child_count, max_children,
  max_segment, node_new, is_same, find_or_create_child, add_at, pattern_of,
}
use vek.Router.Add.{
  Pattern, find_child, fits, KeepsKey, IsStep, modify_child-none, modify_child-some,
  append_child-IsStep, find_or_create_child-found, find_or_create_child-new, is_same_self,
}

abbrev pub patterns : List Bytes → List Pattern
patterns [] = []
patterns (s ∷ ss) = pattern_of s ∷ patterns ss

and-true : (a b : Bool) → (a && b) ≡ true → (a ≡ true) × (b ≡ true)
and-true a b h = ground arith

take-all {ℓ} : {A : Type ℓ} (n : ℕ) (xs : List A) → length xs ≤ n → take n xs ≡ xs
take-all zero [] h = refl
take-all zero (x ∷ xs) h = absurd (omega arith)
take-all (suc n) [] h = refl
take-all (suc n) (x ∷ xs) h = ap (◌∷◌ x) (take-all n xs (omega arith))

node_new-same :
    (q : Pattern)
    → leb (length q.0) (max_segment - 1) ≡ true
    → is_same (node_new q.0 q.1) q.0 q.1 ≡ true
unfolding node_new
node_new-same (name, param) h =
    is_same_self (node_new name param) (name, param) (take-all 127 name (ground (arith, h))) refl

segment-add_at :
    (ss : List Bytes) (n : RouterNode) (method : ℕ) (h : Option Handler)
    → (segment (add_at ss n method h) ≡ segment n) × (is_param (add_at ss n method h) ≡ is_param n)
unfolding add_at
segment-add_at [] (node name param hs kids) method h = (refl, refl)
segment-add_at (s ∷ ss) (node name param hs kids) method h = (refl, refl)

pub add_at-KeepsKey :
    (ss : List Bytes) (method : ℕ) (h : Option Handler) → KeepsKey (λ n. add_at ss n method h)
add_at-KeepsKey ss method h = record {
  name = λ n. (segment-add_at ss n method h).0;
  kind = λ n. (segment-add_at ss n method h).1;
}

fits-found :
    (q : Pattern) (qs : List Pattern) (n c : RouterNode)
    → find_child (children n) q ≡ some c
    → fits (q ∷ qs) n ≡ fits qs c
unfolding fits
fits-found q qs n c e = rw (fits, e) refl

fits-new :
    (q : Pattern) (qs : List Pattern) (n : RouterNode)
    → find_child (children n) q ≡ none
    → fits (q ∷ qs) n ≡ (
        leb (length q.0) (max_segment - 1)
        && ltb (child_count (children n)) max_children
        && fits qs (node_new q.0 q.1))
unfolding fits
fits-new q qs n e = rw (fits, e) refl

-- The child that the walk goes to: one that was there, or a new one.
pub record Walks (q : Pattern) (qs : List Pattern) (n : RouterNode) (go : RouterNode → RouterNode)
    (keeps : KeepsKey go) (c : RouterNode) : Type 0 where
  pub moves : IsStep q go keeps (children n) (find_or_create_child (children n) q.0 q.1 go) c
  pub origin :
      (find_child (children n) q ≡ some c)
      ⊎ ((find_child (children n) q ≡ none) × (c ≡ node_new q.0 q.1))
  pub more : fits qs c ≡ true

pub walk :
    (q : Pattern) (qs : List Pattern) (n : RouterNode) (go : RouterNode → RouterNode)
    (keeps : KeepsKey go)
    → fits (q ∷ qs) n ≡ true
    → (c : RouterNode) × Walks q qs n go keeps c
walk q qs n go keeps h = elim (Option-cases (find_child (children n) q)) [
  | inl e ↦
      let conj = sym (fits-new q qs n e) ∙ h in
      let (ab, more) = and-true _ (fits qs (node_new q.0 q.1)) conj in
      let (short, room) =
        and-true (leb (length q.0) (max_segment - 1)) (ltb (child_count (children n)) max_children)
          ab in
      let new = node_new q.0 q.1 in
      (
        new,
        record {
          moves =
              subst (λ (k : Nodes). IsStep q go keeps (children n) k new)
                (sym (
                  find_or_create_child-new (children n) q.0 q.1 go
                    (modify_child-none q go keeps (children n) e) (ground (arith, room))))
                (append_child-IsStep q go keeps (children n) new e (node_new-same q short));
          origin = inr (e, refl);
          more = more;
        },
      )
  | inr (c, e) ↦
      let (kids', eq, s) = modify_child-some q go keeps (children n) c e in
      (
        c,
        record {
          moves =
              subst (λ (k : Nodes). IsStep q go keeps (children n) k c)
                (sym (find_or_create_child-found (children n) q.0 q.1 go kids' eq)) s;
          origin = inl e;
          more = sym (fits-found q qs n c e) ∙ h;
        },
      )
]
