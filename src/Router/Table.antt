-- ===== src/Router/Table.antt =====
-- `router_add` of src/router.c on the table that the trie stands for: one entry changes.
use vek.Prelude.{
  ℕ, ◌<◌, Bool, true, false, Bool-cases, ◌≡◌, ◌≢◌, ◌∙◌, refl, sym, ap, ap₂, subst, ◌⊎◌, inl, inr,
  Option, some, none, ◌==◌, List, [], ◌∷◌, Bytes, set, arith, bytes_eq, bytes_eq→eq, bytes_eq_self,
  pos,
}
use vek.Router.{
  RouterNode, Nodes, node, Handler, segments, children, method_count, add_at, pattern_of,
  router_add, skip_slash,
}
use vek.Router.Add.{Pattern, find_child, handler_at, fits}
use vek.Router.Valid.{IsValid, add_at-IsValid}
use vek.Router.Walk.{patterns, add_at-KeepsKey, Walks, walk}
use vek.Router.Entries.{
  get_or-set_self, get_or-set_ne, handler_at-found, handler_at-none, handler_at-agree,
  handler_at-node_new, children-add_at, handlers-add_at, Walks-IsValid,
}

-- the step of the walk from `n` along the segment, and where it leads in the new node
module _ (s : Bytes) (ss : List Bytes) (n : RouterNode) (method : ℕ) (h : Option Handler)
    (f : fits (patterns (s ∷ ss)) n ≡ true) where
  abbrev q : Pattern
  q = pattern_of s

  abbrev go : RouterNode → RouterNode
  go child = add_at ss child method h

  stepped : (c : RouterNode) × Walks q (patterns ss) n go (add_at-KeepsKey ss method h) c
  stepped = walk q (patterns ss) n go (add_at-KeepsKey ss method h) f

  abbrev child : RouterNode
  child = stepped.0

  find_child-stepped : find_child (children (add_at (s ∷ ss) n method h)) q ≡ some (go child)
  find_child-stepped =
      ap (λ (k : Nodes). find_child k q) (children-add_at s ss n method h) ∙ stepped.1.moves.found

  find_child-others :
      (r : Pattern)
      → ¬ ((r.0 ≡ q.0) × (r.1 ≡ q.1))
      → find_child (children (add_at (s ∷ ss) n method h)) r ≡ find_child (children n) r
  find_child-others r ne =
      ap (λ (k : Nodes). find_child k r) (children-add_at s ss n method h)
      ∙ stepped.1.moves.others r ne

  -- what the child holds is what the node held below the pattern
  handler_at-child : (qs : List Pattern) (m : ℕ) → handler_at qs child m ≡ handler_at (q ∷ qs) n m
  handler_at-child qs m = elim stepped.1.origin [
    | inl e ↦ sym (handler_at-found q qs n child m e)
    | inr (e, new) ↦
        ap (λ (c : RouterNode). handler_at qs c m) new
        ∙ handler_at-node_new qs q.0 q.1 m
        ∙ sym (handler_at-none q qs n m e)
  ]

  at_head :
      (qs : List Pattern) (m : ℕ) (r : Pattern)
      → r ≡ q
      → handler_at qs (go child) m ≡ handler_at qs child m
      → handler_at (r ∷ qs) (add_at (s ∷ ss) n method h) m ≡ handler_at (r ∷ qs) n m
  at_head qs m r e same =
      subst
        (λ (p : Pattern).
          handler_at (p ∷ qs) (add_at (s ∷ ss) n method h) m ≡ handler_at (p ∷ qs) n m)
        (sym e)
        (handler_at-found q qs (add_at (s ∷ ss) n method h) (go child) m find_child-stepped
          ∙ same
          ∙ handler_at-child qs m)

handler_at-add_at :
    (ss : List Bytes) (n : RouterNode) (method : ℕ) (h : Option Handler)
    → method < method_count
    → IsValid n
    → fits (patterns ss) n ≡ true
    → handler_at (patterns ss) (add_at ss n method h) method ≡ h
unfolding handler_at IsValid add_at
handler_at-add_at [] (node name param hs kids) method h lt v f =
    get_or-set_self hs method h none (omega (arith, lt, v.1))
handler_at-add_at (s ∷ ss) n method h lt v f =
    let c = child s ss n method h f in
    handler_at-found (pattern_of s) (patterns ss) (add_at (s ∷ ss) n method h)
      (add_at ss c method h) method (find_child-stepped s ss n method h f)
    ∙ handler_at-add_at ss c method h lt
        (Walks-IsValid (pattern_of s) (patterns ss) n _ _ c (stepped s ss n method h f).1 v)
        (stepped s ss n method h f).1.more

same_name :
    (a b : Bytes) (kind : Bool)
    → (◌≡◌ {A = Pattern} (a, kind) (b, kind)) ⊎ ¬ ((a ≡ b) × (kind ≡ kind))
same_name a b kind = elim (Bool-cases (bytes_eq a b)) [
  | inl e ↦ inl (ap (λ (name : Bytes). (name, kind)) (bytes_eq→eq a b e))
  | inr e ↦ inr (λ (f, g). cc (subst (λ (x : Bytes). bytes_eq a x ≡ true) f (bytes_eq_self a), e))
]

same_pattern : (q r : Pattern) → (q ≡ r) ⊎ ¬ ((q.0 ≡ r.0) × (q.1 ≡ r.1))
same_pattern (a, true) (b, false) = inr (λ (e, f). cc)
same_pattern (a, false) (b, true) = inr (λ (e, f). cc)
same_pattern (a, true) (b, true) = same_name a b true
same_pattern (a, false) (b, false) = same_name a b false

other_method : (m method : ℕ) → (m ≡ method) ⊎ (method ≢ m)
other_method m method = elim (Bool-cases (m == method)) [
  | inl e ↦ inl (ground (arith, e))
  | inr e ↦ inr (λ f. ground (arith, e, f))
]

handler_at-others :
    (ss : List Bytes) (qs : List Pattern) (n : RouterNode) (method m : ℕ) (h : Option Handler)
    → fits (patterns ss) n ≡ true
    → ((qs ≡ patterns ss) × (m ≡ method))
      ⊎ (handler_at qs (add_at ss n method h) m ≡ handler_at qs n m)
unfolding handler_at add_at
handler_at-others [] [] (node name param hs kids) method m h f = elim (other_method m method) [
  | inl e ↦ inl (refl, e)
  | inr ne ↦ inr (get_or-set_ne hs method m h none ne)
]
handler_at-others [] (r ∷ qs) (node name param hs kids) method m h f = inr (
    handler_at-agree r qs (node name param hs kids) (node name param (set hs method h) kids) m refl)
handler_at-others (s ∷ ss) [] n method m h f = inr (handlers-add_at s ss n method h m)
handler_at-others (s ∷ ss) (r ∷ qs) n method m h f =
    let c = child s ss n method h f in
    elim (same_pattern r (pattern_of s)) [
      | inr ne ↦ inr (
          handler_at-agree r qs n (add_at (s ∷ ss) n method h) m
            (find_child-others s ss n method h f r ne))
      | inl e ↦ elim (handler_at-others ss qs c method m h (stepped s ss n method h f).1.more) [
        | inl (e', k) ↦ inl (ap₂ ◌∷◌ e e', k)
        | inr same ↦ inr (at_head s ss n method h f qs m r e same)
      ]
    ]

-- What `router_add` leaves of the table behind the root: the entry of the path holds the handler,
-- and each other entry is as it was.
pub record IsAdded (root root' : RouterNode) (path : Bytes) (method : ℕ) (h : Option Handler)
    : Type 0 where
  pub valid : IsValid root'
  pub entry : handler_at (patterns (segments (skip_slash path))) root' method ≡ h
  pub others :
      (qs : List Pattern) (m : ℕ)
      → ((qs ≡ patterns (segments (skip_slash path))) × (m ≡ method))
        ⊎ (handler_at qs root' m ≡ handler_at qs root m)

-- Adding a route for a method that the router knows to a valid trie, where the segments of the path
-- are short enough and find room, gives a valid trie in which the patterns of the path hold the
-- handler for that method, and every other list of patterns and method holds what it held.
pub router_add-IsAdded :
    (root : RouterNode) (method : ℕ) (path : Bytes) (h : Option Handler)
    → IsValid root
    → method < method_count
    → fits (patterns (segments (skip_slash path))) root ≡ true
    → (root' : RouterNode) × (router_add (some root) (pos method) path h ≡ some root')
      × IsAdded root root' path method h
unfolding router_add
router_add-IsAdded root method path h v lt f =
    let ss = segments (skip_slash path) in
    (
      add_at ss root method h,
      ground (arith, lt),
      record {
        valid = add_at-IsValid ss root method h v;
        entry = handler_at-add_at ss root method h lt v f;
        others = λ qs m. handler_at-others ss qs root method m h f;
      },
    )
