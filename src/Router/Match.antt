-- ===== src/Router/Match.antt =====
-- `match_recursive` of src/router.c against the routes of the trie.
use vek.Prelude.{
  ℕ, ◌+◌, ◌≤◌, Bool, true, false, ◌≡◌, refl, sym, subst, ◌⊎◌, inl, inr, Option, some, none, List,
  [], ◌∷◌, ◌++◌, Bytes, length,
}
use vek.Router.{
  RouterNode, Nodes, node, cons, nil, RouteParam, Handler, segment, is_param, capture, or_else,
  max_params, handler, children,
}
use vek.Router.Routes.{In, first, later, literal, param, Route, arrive, step}

abbrev pub Result : Type 0
Result = Option Handler × List RouteParam

module _ (R : List RouteParam → Handler → Type 0) (params : List RouteParam) where
  -- the handler of a route, and its captures behind the parameters, within the array
  abbrev pub Found : Result → Type 0
  Found r =
      (h : Handler) × (caps : List RouteParam) × (r ≡ (some h, params ++ caps))
      × R caps h
      × (length params + length caps ≤ max_params)

  -- a route that the array has room for
  abbrev pub HasRoute : Type 0
  HasRoute =
      (h : Handler) × (caps : List RouteParam) × R caps h
      × (length params + length caps ≤ max_params)

  -- either a route, or no route and the parameters `left` behind
  abbrev pub Answers : List RouteParam → Result → Type 0
  Answers left r = Found r ⊎ ((r ≡ (none, left)) × ¬ HasRoute)

module _ (R S T : List RouteParam → Handler → Type 0) (params left end : List RouteParam) where
  or_else-Found :
      (r : Result) (other : List RouteParam → Result)
      → ((caps : List RouteParam) (h : Handler) → R caps h → T caps h)
      → Found R params r
      → Found T params (or_else r other)
  or_else-Found r other RT (h, caps, e, route, room) = (h, caps, rw e, RT caps h route, room)

  pub or_else-Answers :
      (r : Result) (other : List RouteParam → Result)
      → ((caps : List RouteParam) (h : Handler) → R caps h → T caps h)
      → ((caps : List RouteParam) (h : Handler) → S caps h → T caps h)
      → ((caps : List RouteParam) (h : Handler) → T caps h → R caps h ⊎ S caps h)
      → Answers R params left r
      → Answers S params end (other left)
      → Answers T params end (or_else r other)
  or_else-Answers r other RT ST TRS (inl f) b = inl (or_else-Found r other RT f)
  or_else-Answers r other RT ST TRS (inr (e, bare)) (inl (h, caps, eq, route, room)) =
      inl (h, caps, rw e eq, ST caps h route, room)
  or_else-Answers r other RT ST TRS (inr (e, bare)) (inr (eq, bare')) = inr (
    rw e eq,
    λ (h, caps, route, room). elim (TRS caps h route) [
      | inl x ↦ bare (h, caps, x, room)
      | inr y ↦ bare' (h, caps, y, room)
    ],
  )

module _ (method : ℕ) (kids : Nodes) (value : Bytes) (rest : List Bytes) where
  abbrev pub ByLiteral : List RouteParam → Handler → Type 0
  ByLiteral caps h =
      (child : RouterNode) × In child kids
      × (is_param child ≡ false)
      × (segment child ≡ value)
      × Route method h child rest caps

  abbrev pub ByParam : List RouteParam → Handler → Type 0
  ByParam caps h =
      (child : RouterNode) × (more : List RouteParam) × In child kids
      × (is_param child ≡ true)
      × (caps ≡ capture child value ∷ more)
      × Route method h child rest more

  pub literal-Route :
      (name : Bytes) (p : Bool) (hs : List (Option Handler)) (caps : List RouteParam) (h : Handler)
      → ByLiteral caps h
      → Route method h (node name p hs kids) (value ∷ rest) caps
  literal-Route name p hs caps h (child, i, e, s, route) = step i (literal e s) route

  pub param-Route :
      (name : Bytes) (p : Bool) (hs : List (Option Handler)) (caps : List RouteParam) (h : Handler)
      → ByParam caps h
      → Route method h (node name p hs kids) (value ∷ rest) caps
  param-Route name p hs caps h (child, more, i, e, c, route) =
      subst (Route method h (node name p hs kids) (value ∷ rest)) (sym c) (step i (param e) route)

pub Route-cases :
    (method : ℕ) (n : RouterNode) (value : Bytes) (rest : List Bytes) (caps : List RouteParam)
    (h : Handler)
    → Route method h n (value ∷ rest) caps
    → ByLiteral method (children n) value rest caps h
      ⊎ ByParam method (children n) value rest caps h
Route-cases method n value rest _ h (step {child} i (literal e s) route) =
    inl (child, i, e, s, route)
Route-cases method n value rest _ h (step {child} {caps} i (param e) route) =
    inr (child, caps, i, e, refl, route)

pub Route-here :
    (method : ℕ) (n : RouterNode) (caps : List RouteParam) (h : Handler)
    → Route method h n [] caps
    → (handler n method ≡ some h) × (caps ≡ [])
Route-here method n _ h (arrive e) = (e, refl)

pub In-cases :
    (child other : RouterNode) (kids : Nodes)
    → In child (cons other kids)
    → (child ≡ other) ⊎ In child kids
In-cases child _ kids first = inl refl
In-cases child other kids (later i) = inr i

pub In-single : (child other : RouterNode) → In child (cons other nil) → child ≡ other
In-single child _ first = refl
In-single child other (later i) = elim i [ ]

pub In-same : (child other : RouterNode) (kids : Nodes) → child ≡ other → In child (cons other kids)
In-same child other kids e = subst (λ (n : RouterNode). In child (cons n kids)) e first
