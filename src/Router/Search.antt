-- ===== src/Router/Search.antt =====
-- `match_recursive` and `router_match` of src/router.c find a route exactly if there is one.
use vek.Prelude.{
  ℕ, ◌≤◌, ◌<◌, Bool, ◌&&◌, Bool-cases, refl, sym, ap, subst, inl, inr, Option, some, none, List, [],
  ◌∷◌, ◌++◌, append-nil, Bytes, length, get_or, ltb, arith, Option-cases, pos,
}
use vek.Router.{
  RouterNode, Nodes, node, cons, nil, RouteParam, Handler, is_param, is_literal, capture, segments,
  skip_slash, next_segment, remaining, or_else, match_recursive, match_literals, match_params,
  match_from, max_params, handler, router_match, method_count,
}
use vek.Router.Paths.{segments-cons}
use vek.Router.Routes.{Route, arrive}
use vek.Router.Match.{
  Result, Answers, or_else-Answers, ByLiteral, ByParam, literal-Route, param-Route, Route-cases,
  Route-here,
}
use vek.Router.Steps.{
  and-true, one_more, gt→leb, Literals, Params, skip_literal, take_literal, skip_param, take_param,
}

module _ (method : ℕ) where
  abbrev At : RouterNode → Bytes → List RouteParam → Handler → Type 0
  At n p caps h = Route method h n (segments p) caps

  here-Answers :
      (n : RouterNode) (params : List RouteParam)
      → length params ≤ max_params
      → Answers (At n []) params params (handler n method, params)
  unfolding segments
  here-Answers n params room = elim (Option-cases (handler n method)) [
    | inl e ↦ inr (
      ap (λ (o : Option Handler). (o, params)) e,
      λ (h, caps, route, fits). cc ((Route-here method n caps h route).0, e),
    )
    | inr (h, e) ↦ inl (h, [], rw (e, append-nil params) refl, arrive e, omega (arith, room))
  ]

  node-Answers :
      (name : Bytes) (p : Bool) (hs : List (Option Handler)) (kids : Nodes) (c : ℕ) (cs : Bytes)
      (params : List RouteParam) (r : Result) (other : List RouteParam → Result)
      → Answers (Literals method (next_segment (c ∷ cs)) (remaining (c ∷ cs)) kids) params params r
      → Answers
          (Params method (next_segment (c ∷ cs)) (remaining (c ∷ cs)) kids)
          params
          params
          (other params)
      → Answers (At (node name p hs kids) (c ∷ cs)) params params (or_else r other)
  node-Answers name p hs kids c cs params r other a b =
      let value = next_segment (c ∷ cs) in
      let rest = segments (skip_slash (remaining (c ∷ cs))) in
      let n = node name p hs kids in
      subst
        (λ (ss : List Bytes).
          Answers (λ caps h. Route method h n ss caps) params params (or_else r other))
        (sym (segments-cons c cs))
        (or_else-Answers (ByLiteral method kids value rest) (ByParam method kids value rest)
          (λ caps h. Route method h n (value ∷ rest) caps) params params params r other
          (literal-Route method kids value rest name p hs)
          (param-Route method kids value rest name p hs) (Route-cases method n value rest) a b)

  match_from-Answers :
      (name : Bytes) (p : Bool) (hs : List (Option Handler)) (kids : Nodes)
      (params : List RouteParam) (lits : Bytes → Bytes → Result)
      (pars : Bytes → Bytes → List RouteParam → Result)
      → length params ≤ max_params
      → ((value rest : Bytes)
          → Answers (Literals method value rest kids) params params (lits value rest))
      → ((value rest : Bytes)
          → Answers (Params method value rest kids) params params (pars value rest params))
      → (path : Bytes)
      → Answers (At (node name p hs kids) path) params params (
          match_from
            (get_or hs method none, params)
            (λ (value rest : Bytes). or_else (lits value rest) (pars value rest))
            path)
  match_from-Answers name p hs kids params lits pars room a b [] =
      here-Answers (node name p hs kids) params room
  match_from-Answers name p hs kids params lits pars room a b (c ∷ cs) =
      node-Answers name p hs kids c cs params _ _ (a _ _) (b _ _)

  mutual
    unfolding match_recursive

    match_recursive-Answers :
        (n : RouterNode) (path : Bytes) (params : List RouteParam)
        → length params ≤ max_params
        → Answers (At n (skip_slash path)) params params (match_recursive n path method params)
    match_recursive-Answers (node name p hs kids) path params room =
        match_from-Answers name p hs kids params
          (λ (value rest : Bytes). match_literals kids value rest method params)
          (λ (value rest : Bytes) (ps : List RouteParam). match_params kids value rest method ps)
          room (λ value rest. match_literals-Answers kids value rest params room)
          (λ value rest. match_params-Answers kids value rest params room) (skip_slash path)

    match_literals-Answers :
        (kids : Nodes) (value rest : Bytes) (params : List RouteParam)
        → length params ≤ max_params
        → Answers
            (Literals method value rest kids)
            params
            params
            (match_literals kids value rest method params)
    match_literals-Answers nil value rest params room =
        inr (refl, λ (h, caps, (c, i, q, e, x), fits). elim i [ ])
    match_literals-Answers (cons child kids) value rest params room =
        elim (Bool-cases (is_literal child value)) [
          | inl e ↦
              rw (match_literals, e)
                (take_literal method value rest child kids params _ _ e
                  (match_recursive-Answers child rest params room)
                  (match_literals-Answers kids value rest params room))
          | inr e ↦
              rw (match_literals, e)
                (skip_literal method value rest child kids params _ e
                  (match_literals-Answers kids value rest params room))
        ]

    match_params-Answers :
        (kids : Nodes) (value rest : Bytes) (params : List RouteParam)
        → length params ≤ max_params
        → Answers
            (Params method value rest kids)
            params
            params
            (match_params kids value rest method params)
    match_params-Answers nil value rest params room =
        inr (refl, λ (h, caps, (c, more, i, q, e, x), fits). elim i [ ])
    match_params-Answers (cons child kids) value rest params room =
        elim (Bool-cases (is_param child && ltb (length params) max_params)) [
          | inl e ↦
              rw (match_params, e)
                (take_param method value rest child kids params _
                  (λ ps. match_params kids value rest method ps)
                  (and-true (is_param child) (ltb (length params) max_params) e).0
                  (match_recursive-Answers child rest (params ++ (capture child value ∷ []))
                    (one_more child params (capture child value) e))
                  (match_params-Answers kids value rest params room))
          | inr e ↦
              rw (match_params, e)
                (skip_param method value rest child kids params _ e
                  (match_params-Answers kids value rest params room))
        ]

-- A match of a path with a method that the router knows ends, and either returns the handler of a
-- route of the trie along the segments of the path, with what the parameters of that route capture,
-- 16 at most; or it returns NULL with no parameter, and the trie has no route along the segments that
-- captures at most 16.
pub router_match-Answers :
    (root : RouterNode) (method : ℕ) (path : Bytes) (before : List RouteParam)
    → method < method_count
    → Answers
        (λ caps h. Route method h root (segments (skip_slash path)) caps)
        []
        []
        (router_match (some root) (pos method) path before)
unfolding router_match
router_match-Answers root method path before lt =
    rw (gt→leb method lt) (match_recursive-Answers method root path [] (omega arith))
