-- ===== src/Router.antt =====
-- The router of src/router.c: a trie of path segments with `:name` parameters. A C string is the list
-- of its bytes up to the NUL. A handler is an address, and `none` is NULL. A function that changes a
-- node in place returns the new node. Allocation always succeeds.

pub mod Paths
pub mod Routes
pub mod Match
pub mod Search
pub mod Steps
pub mod Walk
pub mod Entries
pub mod Add
pub mod Valid
pub mod Table
pub mod Literal
pub mod Long
mod Tests
use vek.Prelude.{
  ℕ, zero, suc, ◌+◌, ◌-◌, ◌∷◌, [], List, ◌++◌, Bool, true, false, not, ◌&&◌, Option, none, some,
  Bytes, length, take, get_or, set, replicate, ltb, leb, ◌==◌, bytes_eq, if◌then◌else◌, ℤ, pos,
  negsuc,
}

abbrev pub max_params : ℕ
max_params = 16

abbrev pub max_children : ℕ
max_children = 32

abbrev pub max_segment : ℕ
max_segment = 128

abbrev pub method_count : ℕ
method_count = 7

abbrev pub Handler : Type 0
Handler = ℕ

pub record RouteParam : Type 0 where
  pub name : Bytes
  pub value : Bytes

-- segment, is_param, handlers and children
mutual
  pub data RouterNode : Type 0 where
    node : Bytes → Bool → List (Option Handler) → Nodes → RouterNode

  pub data Nodes : Type 0 where
    nil : Nodes
    cons : RouterNode → Nodes → Nodes

-- the root, or NULL
abbrev pub Router : Type 0
Router = Option RouterNode

abbrev pub segment : RouterNode → Bytes
segment (node name is_param handlers children) = name

abbrev pub is_param : RouterNode → Bool
is_param (node name param handlers children) = param

abbrev pub handler : RouterNode → ℕ → Option Handler
handler (node name param handlers children) method = get_or handlers method none

abbrev pub children : RouterNode → Nodes
children (node name param handlers kids) = kids

abbrev pub child_count : Nodes → ℕ
child_count nil = 0
child_count (cons child rest) = suc (child_count rest)

abbrev pub append_child : Nodes → RouterNode → Nodes
append_child nil new = cons new nil
append_child (cons child rest) new = cons child (append_child rest new)

-- A segment that does not fit is cut.
unfoldable pub node_new : Bytes → Bool → RouterNode
node_new name param = node (take (max_segment - 1) name) param (replicate method_count none) nil

abbrev pub router_init : Router
router_init = some (node_new [] false)

abbrev pub router_destroy : Router → Router
router_destroy router = none

-- the test of `find_or_create_child`
abbrev pub is_same : RouterNode → Bytes → Bool → Bool
is_same child name param =
    (if is_param child then param else not param) && bytes_eq (segment child) name

-- the loop over the existing children, where `go` is what the caller does to the one that is found
unfoldable pub modify_child : Nodes → Bytes → Bool → (RouterNode → RouterNode) → Option Nodes
modify_child nil name param go = none
modify_child (cons child rest) name param go =
    if is_same child name param
    then some (cons (go child) rest)
    else elim (modify_child rest name param go) [
      | none ↦ none
      | some rest' ↦ some (cons child rest')
    ]

-- the children after the caller's `go` on the child that is found or created
unfoldable pub find_or_create_child : Nodes → Bytes → Bool → (RouterNode → RouterNode) → Nodes
find_or_create_child kids name param go = elim (modify_child kids name param go) [
  | none ↦
      if leb max_children (child_count kids)
      then kids
      else append_child kids (go (node_new name param))
  | some kids' ↦ kids'
]

-- a leading slash
abbrev pub skip_slash : Bytes → Bytes
skip_slash [] = []
skip_slash (c ∷ cs) = if c == b'/' then cs else c ∷ cs

abbrev pub extend_first : ℕ → List Bytes → List Bytes
extend_first c [] = (c ∷ []) ∷ []
extend_first c (s ∷ ss) = (c ∷ s) ∷ ss

-- The rounds of the loop of `router_add`: each cuts at the next slash, and skips that one.
unfoldable pub segments : Bytes → List Bytes
segments [] = []
segments (c ∷ cs) = if c == b'/' then [] ∷ segments cs else extend_first c (segments cs)

-- the name of a segment, and whether it is a parameter
abbrev pub pattern_of : Bytes → Bytes × Bool
pattern_of [] = ([], false)
pattern_of (c ∷ cs) = if c == b':' then (cs, true) else (c ∷ cs, false)

-- the walk from a node along the segments
unfoldable pub add_at : List Bytes → RouterNode → ℕ → Option Handler → RouterNode
add_at [] (node name param handlers kids) method h = node name param (set handlers method h) kids
add_at (s ∷ ss) (node name param handlers kids) method h = node name param handlers (
    find_or_create_child kids (pattern_of s).0 (pattern_of s).1
      (λ (child : RouterNode). add_at ss child method h))

unfoldable pub router_add : Router → ℤ → Bytes → Option Handler → Router
router_add none method path h = none
router_add (some root) (negsuc m) path h = some root
router_add (some root) (pos method) path h =
    if leb method_count method
    then some root
    else some (add_at (segments (skip_slash path)) root method h)

-- the next segment, and what remains from the slash behind it
abbrev pub next_segment : Bytes → Bytes
next_segment [] = []
next_segment (c ∷ cs) = if c == b'/' then [] else c ∷ next_segment cs

abbrev pub remaining : Bytes → Bytes
remaining [] = []
remaining (c ∷ cs) = if c == b'/' then c ∷ cs else remaining cs

-- `if (result) return result;`, and otherwise the rest with the parameters as they are now
abbrev pub or_else :
    Option Handler × List RouteParam
    → (List RouteParam → Option Handler × List RouteParam)
    → Option Handler × List RouteParam
or_else (some h, params) other = (some h, params)
or_else (none, params) other = other params

abbrev pub is_literal : RouterNode → Bytes → Bool
is_literal child name = not (is_param child) && bytes_eq (segment child) name

abbrev pub capture : RouterNode → Bytes → RouteParam
capture child value = record { name = segment child; value = value }

-- `arrived` at the end of the path, and otherwise `go` on the next segment and what remains
abbrev pub match_from :
    Option Handler × List RouteParam
    → (Bytes → Bytes → Option Handler × List RouteParam)
    → Bytes
    → Option Handler × List RouteParam
match_from arrived go [] = arrived
match_from arrived go (c ∷ cs) = go (next_segment (c ∷ cs)) (remaining (c ∷ cs))

-- `match_recursive` and its two loops. `params` has `count` elements: what the array holds behind
-- them is never read.
unfoldable mutual
  pub match_recursive : RouterNode → Bytes → ℕ → List RouteParam → Option Handler × List RouteParam
  match_recursive (node name param handlers kids) path method params =
      match_from (get_or handlers method none, params)
        (λ (value rest : Bytes).
          or_else (match_literals kids value rest method params)
            (λ (params' : List RouteParam). match_params kids value rest method params'))
        (skip_slash path)

  pub match_literals :
      Nodes → Bytes → Bytes → ℕ → List RouteParam → Option Handler × List RouteParam
  match_literals nil value rest method params = (none, params)
  match_literals (cons child kids) value rest method params = elim (is_literal child value) [
    | true ↦
        or_else (match_recursive child rest method params)
          (λ (params' : List RouteParam). match_literals kids value rest method params')
    | false ↦ match_literals kids value rest method params
  ]

  pub match_params : Nodes → Bytes → Bytes → ℕ → List RouteParam → Option Handler × List RouteParam
  match_params nil value rest method params = (none, params)
  match_params (cons child kids) value rest method params =
      elim (is_param child && ltb (length params) max_params) [
        | true ↦
            or_else (match_recursive child rest method (params ++ (capture child value ∷ [])))
              (λ (params' : List RouteParam).
                match_params kids value rest method (take (length params) params'))
        | false ↦ match_params kids value rest method params
      ]

unfoldable pub router_match :
    Router → ℤ → Bytes → List RouteParam → Option Handler × List RouteParam
router_match none method path params = (none, params)
router_match (some root) (negsuc m) path params = (none, params)
router_match (some root) (pos method) path params =
    if leb method_count method then (none, params) else match_recursive root path method []
