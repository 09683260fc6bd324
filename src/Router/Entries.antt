-- ===== src/Router/Entries.antt =====
-- The entries of the table that the trie of src/router.c stands for, at one node.
use vek.Prelude.{
  ℕ, zero, suc, ◌<◌, Bool, ◌≡◌, ◌≢◌, ◌∙◌, refl, sym, ap, subst, inl, inr, Option, some, none, List,
  [], ◌∷◌, Bytes, length, get_or, set, replicate, arith, Option-cases,
}
use vek.Router.{
  RouterNode, node, Handler, handler, children, method_count, node_new, find_or_create_child,
  add_at, pattern_of,
}
use vek.Router.Add.{Pattern, find_child, handler_at, KeepsKey}
use vek.Router.Valid.{IsValid, node_new-IsValid, find_child-IsValid}
use vek.Router.Walk.{Walks}

pub get_or-set_self {ℓ} :
    {A : Type ℓ} (xs : List A) (i : ℕ) (v d : A) → i < length xs → get_or (set xs i v) i d ≡ v
get_or-set_self [] i v d h = absurd (omega arith)
get_or-set_self (x ∷ xs) zero v d h = refl
get_or-set_self (x ∷ xs) (suc i) v d h = get_or-set_self xs i v d (omega arith)

pub get_or-set_ne {ℓ} :
    {A : Type ℓ} (xs : List A) (i j : ℕ) (v d : A) → i ≢ j → get_or (set xs i v) j d ≡ get_or xs j d
get_or-set_ne [] i j v d h = refl
get_or-set_ne (x ∷ xs) zero zero v d h = absurd (h refl)
get_or-set_ne (x ∷ xs) zero (suc j) v d h = refl
get_or-set_ne (x ∷ xs) (suc i) zero v d h = refl
get_or-set_ne (x ∷ xs) (suc i) (suc j) v d h = get_or-set_ne xs i j v d (λ e. h (ap suc e))

pub handler_at-found :
    (q : Pattern) (qs : List Pattern) (n c : RouterNode) (method : ℕ)
    → find_child (children n) q ≡ some c
    → handler_at (q ∷ qs) n method ≡ handler_at qs c method
unfolding handler_at
handler_at-found q qs n c method e = rw (handler_at, e) refl

pub handler_at-none :
    (q : Pattern) (qs : List Pattern) (n : RouterNode) (method : ℕ)
    → find_child (children n) q ≡ none
    → handler_at (q ∷ qs) n method ≡ none
unfolding handler_at
handler_at-none q qs n method e = rw (handler_at, e) refl

-- two nodes with the same child for the pattern
pub handler_at-agree :
    (q : Pattern) (qs : List Pattern) (n n' : RouterNode) (method : ℕ)
    → find_child (children n') q ≡ find_child (children n) q
    → handler_at (q ∷ qs) n' method ≡ handler_at (q ∷ qs) n method
handler_at-agree q qs n n' method e = elim (Option-cases (find_child (children n) q)) [
  | inl f ↦ handler_at-none q qs n' method (e ∙ f) ∙ sym (handler_at-none q qs n method f)
  | inr (c, f) ↦
      handler_at-found q qs n' c method (e ∙ f) ∙ sym (handler_at-found q qs n c method f)
]

get_or-replicate {ℓ} : {A : Type ℓ} (n i : ℕ) (d : A) → get_or (replicate n d) i d ≡ d
get_or-replicate zero i d = refl
get_or-replicate (suc n) zero d = refl
get_or-replicate (suc n) (suc i) d = get_or-replicate n i d

pub handler_at-node_new :
    (qs : List Pattern) (name : Bytes) (param : Bool) (method : ℕ)
    → handler_at qs (node_new name param) method ≡ none
unfolding handler_at node_new
handler_at-node_new [] name param method = get_or-replicate method_count method none
handler_at-node_new (q ∷ qs) name param method = refl

-- the children after `add_at`
pub children-add_at :
    (s : Bytes) (ss : List Bytes) (n : RouterNode) (method : ℕ) (h : Option Handler)
    → children (add_at (s ∷ ss) n method h)
      ≡ find_or_create_child
          (children n)
          (pattern_of s).0
          (pattern_of s).1
          (λ (child : RouterNode). add_at ss child method h)
unfolding add_at
children-add_at s ss (node name param hs kids) method h = refl

pub handlers-add_at :
    (s : Bytes) (ss : List Bytes) (n : RouterNode) (method : ℕ) (h : Option Handler) (m : ℕ)
    → handler (add_at (s ∷ ss) n method h) m ≡ handler n m
unfolding add_at
handlers-add_at s ss (node name param hs kids) method h m = refl

pub Walks-IsValid :
    (q : Pattern) (qs : List Pattern) (n : RouterNode) (go : RouterNode → RouterNode)
    (keeps : KeepsKey go) (c : RouterNode)
    → Walks q qs n go keeps c
    → IsValid n
    → IsValid c
unfolding IsValid
Walks-IsValid q qs (node name param hs kids) go keeps c w v = elim w.origin [
  | inl e ↦ find_child-IsValid kids q c v.3 e
  | inr (e, f) ↦ subst IsValid (sym f) (node_new-IsValid q.0 q.1)
]
