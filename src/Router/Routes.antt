-- ===== src/Router/Routes.antt =====
-- What the trie of src/router.c promises, apart from the order in which it is searched.
use vek.Prelude.{ℕ, true, false, ◌≡◌, some, List, [], ◌∷◌, ◌++◌, Bytes}
use vek.Router.{
  RouterNode, Nodes, cons, RouteParam, Handler, handler, children, segment, is_param, capture,
}

pub data In (child : RouterNode) : Nodes → Type 0 where
  first : {kids : Nodes} → In child (cons child kids)
  later : {other : RouterNode} {kids : Nodes} → In child kids → In child (cons other kids)

-- A child takes a segment: a literal its own, capturing nothing, and a parameter any, capturing it.
pub data Takes (child : RouterNode) (value : Bytes) : List RouteParam → Type 0 where
  literal : is_param child ≡ false → segment child ≡ value → Takes child value []
  param : is_param child ≡ true → Takes child value (capture child value ∷ [])

-- The segments lead from a node to the handler of the method, with what the parameters capture.
pub data Route (method : ℕ) (h : Handler) : RouterNode → List Bytes → List RouteParam → Type 0 where
  arrive : {n : RouterNode} → handler n method ≡ some h → Route method h n [] []
  step :
      {n child : RouterNode} {value : Bytes} {rest : List Bytes} {mine caps : List RouteParam}
      → In child (children n)
      → Takes child value mine
      → Route method h child rest caps
      → Route method h n (value ∷ rest) (mine ++ caps)
