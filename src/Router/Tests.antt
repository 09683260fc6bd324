-- ===== src/Router/Tests.antt =====
-- Runs of src/router.c, and its theorems at such routers.
use Prim.Native.String.{String}
use vek.Prelude.{
  ◌≡◌, refl, Option, some, none, List, [], ◌∷◌, replicate, bytes_eq, pos, arith, true, false,
}
use vek.Lexer.Keywords.{codes}
use vek.Router.{
  RouterNode, node, nil, cons, RouteParam, Handler, router_init, router_add, router_match, add_at,
  node_new, find_or_create_child, modify_child, segments, skip_slash, match_recursive,
}
use vek.Router.Add.{fits}
use vek.Router.Valid.{node_new-IsValid}
use vek.Router.Table.{IsAdded, router_add-IsAdded}
use vek.Router.Match.{Answers}
use vek.Router.Routes.{Route}
use vek.Router.Search.{router_match-Answers}
use vek.Router.Literal.{router_match-router_add}
use vek.Router.Long.{no_slash, router_match-long}

-- three routes for GET
run : String → Option Handler × List RouteParam
unfolding router_add add_at node_new find_or_create_child modify_child segments router_match
    match_recursive bytes_eq
run path =
    router_match
      (router_add
        (router_add (router_add router_init (pos 0) (codes "/posts/:id") (some 1)) (pos 0)
          (codes "posts/new/") (some 2))
        (pos 0) (codes "/:kind/:id/all") (some 3))
      (pos 0) (codes path) []

run-literal_first : run "/posts/new" ≡ (some 2, [])
unfolding run
run-literal_first = refl

run-backtracks : run "/posts/new/all" ≡ (
  some 3,
  record { name = codes "kind"; value = codes "posts" }
      ∷ record { name = codes "id"; value = codes "new" }
      ∷ [],
)
unfolding run
run-backtracks = refl

run-misses : run "/posts" ≡ (none, [])
unfolding run
run-misses = refl

-- a router with the route `/:id` for GET
abbrev root : RouterNode
root =
    node [] false (replicate 7 none)
      (cons (node (codes "id") true (some 5 ∷ replicate 6 none) nil) nil)

router_match-Answers_example :
    Answers
      (λ caps h. Route 0 h root (segments (skip_slash (codes "/7"))) caps)
      []
      []
      (router_match (some root) (pos 0) (codes "/7") [])
router_match-Answers_example = router_match-Answers root 0 (codes "/7") [] (omega arith)

abbrev fresh : RouterNode
fresh = node_new [] false

router_add-IsAdded_example :
    (root' : RouterNode) × (router_add (some fresh) (pos 1) (codes "/posts/:id") (some 4)
      ≡ some root')
    × IsAdded fresh root' (codes "/posts/:id") 1 (some 4)
unfolding fits segments node_new
router_add-IsAdded_example =
    router_add-IsAdded fresh 1 (codes "/posts/:id") (some 4) (node_new-IsValid [] false)
      (omega arith) refl

router_match-router_add_example :
    router_match (router_add (some fresh) (pos 1) (codes "/a/b") (some 4)) (pos 1) (codes "/a/b") []
    ≡ (some 4, [])
unfolding fits segments node_new
router_match-router_add_example =
    router_match-router_add fresh 1 (codes "/a/b") 4 [] (node_new-IsValid [] false) (omega arith)
      refl refl

router_match-long_example :
    (router_match
        (router_add router_init (pos 0) (b'/' ∷ (b'a' ∷ replicate 127 b'b')) (some 4))
        (pos 0)
        (b'/' ∷ (b'a' ∷ replicate 127 b'b'))
        []
      ≡ (none, []))
    × (router_match
          (router_add router_init (pos 0) (b'/' ∷ (b'a' ∷ replicate 127 b'b')) (some 4))
          (pos 0)
          (b'/' ∷ (b'a' ∷ replicate 126 b'b'))
          []
        ≡ (some 4, []))
unfolding no_slash
router_match-long_example =
    router_match-long b'a' (replicate 127 b'b') 0 4 [] (omega arith) refl
      (λ e. absurd (omega arith)) (omega arith)
