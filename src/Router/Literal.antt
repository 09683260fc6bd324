-- ===== src/Router/Literal.antt =====
-- A path without parameters in src/router.c: what was added is what is matched.
use vek.Prelude.{
  ℕ, ◌<◌, true, false, Bool-cases, ◌≡◌, ◌∙◌, refl, sym, ap, subst, ◌⊎◌, inl, inr, Option, some,
  none, List, [], ◌∷◌, Bytes, get_or, pos, Option-cases,
}
use mathlib.Core.Option.{some-injective}
use vek.Router.{
  RouterNode, Nodes, node, cons, nil, RouteParam, Handler, is_same, is_literal, segments,
  skip_slash, next_segment, remaining, or_else, match_recursive, match_literals, match_params,
  match_from, handler, method_count, children, router_add, router_match,
}
use vek.Router.Paths.{segments-cons}
use vek.Router.Add.{Pattern, find_child, handler_at, fits}
use vek.Router.Valid.{IsValid}
use vek.Router.Table.{router_add-IsAdded}
use vek.Router.Walk.{patterns}
use vek.Router.Entries.{handler_at-found, handler_at-none}
use vek.Router.Steps.{gt→leb}

-- each segment as it stands
abbrev pub literals : List Bytes → List Pattern
literals [] = []
literals (s ∷ ss) = (s, false) ∷ literals ss

is_same-literal :
    (child : RouterNode) (value : Bytes) → is_same child value false ≡ is_literal child value
is_same-literal (node name true hs kids) value = refl
is_same-literal (node name false hs kids) value = refl

find_child-here :
    (child : RouterNode) (rest : Nodes) (value : Bytes)
    → is_literal child value ≡ true
    → find_child (cons child rest) (value, false) ≡ some child
find_child-here child rest value e = rw (is_same-literal child value ∙ e) refl

find_child-there :
    (child : RouterNode) (rest : Nodes) (value : Bytes)
    → is_literal child value ≡ false
    → find_child (cons child rest) (value, false) ≡ find_child rest (value, false)
find_child-there child rest value e = rw (is_same-literal child value ∙ e) refl

-- a handler below a first pattern is below a child
handler_at-child :
    (q : Pattern) (qs : List Pattern) (n : RouterNode) (method : ℕ) (h : Handler)
    → handler_at (q ∷ qs) n method ≡ some h
    → (c : RouterNode) × (find_child (children n) q ≡ some c) × (handler_at qs c method ≡ some h)
handler_at-child q qs n method h e = elim (Option-cases (find_child (children n) q)) [
  | inl f ↦ cc (handler_at-none q qs n method f, e)
  | inr (c, f) ↦ (c, f, sym (handler_at-found q qs n c method f) ∙ e)
]

Bytes-cases : (p : Bytes) → (p ≡ []) ⊎ ((c : ℕ) × (cs : Bytes) × (p ≡ c ∷ cs))
Bytes-cases [] = inl refl
Bytes-cases (c ∷ cs) = inr (c, cs, refl)

match_recursive-end :
    (n : RouterNode) (method : ℕ) (path : Bytes) (params : List RouteParam)
    → skip_slash path ≡ []
    → match_recursive n path method params ≡ (handler n method, params)
unfolding match_recursive
match_recursive-end (node name p hs kids) method path params e =
    ap
      (match_from (get_or hs method none, params)
        (λ (value rest : Bytes).
          or_else (match_literals kids value rest method params)
            (λ (ps : List RouteParam). match_params kids value rest method ps)))
      e

pub match_recursive-first :
    (n : RouterNode) (method : ℕ) (path : Bytes) (params : List RouteParam) (c : ℕ) (cs : Bytes)
    (h : Handler)
    → skip_slash path ≡ c ∷ cs
    → match_literals (children n) (next_segment (c ∷ cs)) (remaining (c ∷ cs)) method params
      ≡ (some h, params)
    → match_recursive n path method params ≡ (some h, params)
unfolding match_recursive
match_recursive-first (node name p hs kids) method path params c cs h e f =
    ap
      (match_from (get_or hs method none, params)
        (λ (value rest : Bytes).
          or_else (match_literals kids value rest method params)
            (λ (ps : List RouteParam). match_params kids value rest method ps)))
      e
    ∙ ap
        (λ (r : Option Handler × List RouteParam). or_else r (λ (ps : List RouteParam).
          match_params kids (next_segment (c ∷ cs)) (remaining (c ∷ cs)) method ps))
        f

pub match_literals-take :
    (method : ℕ) (child : RouterNode) (kids : Nodes) (value rest : Bytes) (params : List RouteParam)
    (h : Handler)
    → is_literal child value ≡ true
    → match_recursive child rest method params ≡ (some h, params)
    → match_literals (cons child kids) value rest method params ≡ (some h, params)
unfolding match_recursive
match_literals-take method child kids value rest params h e f = rw (match_literals, e, f) refl

pub match_literals-skip :
    (method : ℕ) (child : RouterNode) (kids : Nodes) (value rest : Bytes) (params : List RouteParam)
    → is_literal child value ≡ false
    → match_literals (cons child kids) value rest method params
      ≡ match_literals kids value rest method params
unfolding match_recursive
match_literals-skip method child kids value rest params e = rw (match_literals, e) refl

handler_at-end :
    (n : RouterNode) (method : ℕ) (h : Handler) (p : Bytes)
    → p ≡ []
    → handler_at (literals (segments p)) n method ≡ some h
    → handler n method ≡ some h
unfolding handler_at segments
handler_at-end n method h p e f =
    subst (λ (p' : Bytes). handler_at (literals (segments p')) n method ≡ some h) e f

handler_at-segments :
    (n : RouterNode) (method : ℕ) (h : Handler) (p : Bytes) (c : ℕ) (cs : Bytes)
    → p ≡ c ∷ cs
    → handler_at (literals (segments p)) n method ≡ some h
    → handler_at
        ((next_segment (c ∷ cs), false) ∷ literals (segments (skip_slash (remaining (c ∷ cs)))))
        n
        method
      ≡ some h
handler_at-segments n method h p c cs e f =
    ap (λ (ss : List Bytes). handler_at (literals ss) n method) (sym (segments-cons c cs))
    ∙ ap (λ (p' : Bytes). handler_at (literals (segments p')) n method) (sym e)
    ∙ f

module _ (method : ℕ) (h : Handler) (params : List RouteParam) where
  mutual
    match_recursive-literal :
        (n : RouterNode) (path : Bytes)
        → handler_at (literals (segments (skip_slash path))) n method ≡ some h
        → match_recursive n path method params ≡ (some h, params)
    match_recursive-literal (node name p hs kids) path e = elim (Bytes-cases (skip_slash path)) [
      | inl f ↦
          match_recursive-end (node name p hs kids) method path params f
          ∙ ap (λ (o : Option Handler). (o, params))
              (handler_at-end (node name p hs kids) method h (skip_slash path) f e)
      | inr (c, cs, f) ↦
          let (child, found, below) =
            handler_at-child (next_segment (c ∷ cs), false)
              (literals (segments (skip_slash (remaining (c ∷ cs))))) (node name p hs kids) method h
              (handler_at-segments (node name p hs kids) method h (skip_slash path) c cs f e) in
          match_recursive-first (node name p hs kids) method path params c cs h f (
            match_literals-literal kids (next_segment (c ∷ cs)) (remaining (c ∷ cs)) child found
              below)
    ]

    match_literals-literal :
        (kids : Nodes) (value rest : Bytes) (c : RouterNode)
        → find_child kids (value, false) ≡ some c
        → handler_at (literals (segments (skip_slash rest))) c method ≡ some h
        → match_literals kids value rest method params ≡ (some h, params)
    match_literals-literal nil value rest c e f = cc
    match_literals-literal (cons child kids) value rest c e f =
        elim (Bool-cases (is_literal child value)) [
          | inl g ↦
              let same = some-injective c child (sym e ∙ find_child-here child kids value g) in
              match_literals-take method child kids value rest params h g (
                match_recursive-literal child rest (
                  subst
                    (λ (n : RouterNode).
                      handler_at (literals (segments (skip_slash rest))) n method ≡ some h)
                    same f))
          | inr g ↦
              match_literals-skip method child kids value rest params g
              ∙ match_literals-literal kids value rest c
                  (sym (find_child-there child kids value g) ∙ e) f
        ]

-- After a handler was added to a valid trie for a path without parameters, whose segments are short
-- enough and find room, matching that path with the same method returns this handler and captures
-- nothing, whatever other routes the trie holds.
pub router_match-router_add :
    (root : RouterNode) (method : ℕ) (path : Bytes) (h : Handler) (before : List RouteParam)
    → IsValid root
    → method < method_count
    → fits (patterns (segments (skip_slash path))) root ≡ true
    → patterns (segments (skip_slash path)) ≡ literals (segments (skip_slash path))
    → router_match (router_add (some root) (pos method) path (some h)) (pos method) path before
      ≡ (some h, [])
unfolding router_match
router_match-router_add root method path h before v lt f lit =
    let (root', e, added) = router_add-IsAdded root method path (some h) v lt f in
    rw (e, gt→leb method lt)
      (match_recursive-literal method h [] root' path
        (ap (λ (qs : List Pattern). handler_at qs root' method) (sym lit) ∙ added.entry))
