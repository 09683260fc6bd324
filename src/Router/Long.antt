-- ===== src/Router/Long.antt =====
-- `node_new` of src/router.c cuts a segment that is too long, which changes the paths that it matches.
use vek.Prelude.{
  ℕ, zero, suc, ◌<◌, Bool, true, false, not, ◌&&◌, Bool-cases, ◌≡◌, ◌≢◌, ◌∙◌, refl, ap, ap₂, inl,
  inr, Option, some, none, List, [], ◌∷◌, Bytes, length, take, set, replicate, arith, bytes_eq,
  bytes_eq→eq, bytes_eq_self, length-take, pos, ◌==◌,
}
use vek.Router.{
  RouterNode, node, cons, nil, RouteParam, Handler, segments, pattern_of, extend_first,
  next_segment, remaining, match_recursive, match_literals, is_literal, or_else, match_params,
  method_count, router_init, router_add, router_match, add_at, modify_child, find_or_create_child,
  node_new,
}
use vek.Router.Literal.{match_recursive-first, match_literals-take, match_literals-skip}
use vek.Router.Steps.{gt→leb}
use vek.Router.Entries.{get_or-set_self}

-- no slash in the bytes
unfoldable pub no_slash : Bytes → Bool
no_slash [] = true
no_slash (c ∷ cs) = not (c == b'/') && no_slash cs

no_slash-cons :
    (c : ℕ) (cs : Bytes) → no_slash (c ∷ cs) ≡ true → ((c == b'/') ≡ false) × (no_slash cs ≡ true)
unfolding no_slash
no_slash-cons c cs h = ground (arith, h)

pattern_of-plain : (c : ℕ) (cs : Bytes) → c ≢ b':' → pattern_of (c ∷ cs) ≡ (c ∷ cs, false)
pattern_of-plain c cs ne = ground (arith, ne)

segments-whole : (c : ℕ) (cs : Bytes) → no_slash (c ∷ cs) ≡ true → segments (c ∷ cs) ≡ (c ∷ cs) ∷ []
unfolding segments no_slash
segments-whole c [] h = ground (arith, h)
segments-whole c (d ∷ ds) h =
    let (a, b) = no_slash-cons c (d ∷ ds) h in rw a (ap (extend_first c) (segments-whole d ds b))

next_segment-whole : (s : Bytes) → no_slash s ≡ true → (next_segment s ≡ s) × (remaining s ≡ [])
unfolding no_slash
next_segment-whole [] h = (refl, refl)
next_segment-whole (c ∷ cs) h =
    let (a, b) = no_slash-cons c cs h in
    let (next, rest) = next_segment-whole cs b in (rw a (ap (◌∷◌ c) next), rw a rest)

no_slash-take : (n : ℕ) (s : Bytes) → no_slash s ≡ true → no_slash (take n s) ≡ true
unfolding no_slash
no_slash-take zero s h = refl
no_slash-take (suc n) [] h = refl
no_slash-take (suc n) (c ∷ cs) h = let (a, b) = no_slash-cons c cs h in rw a (no_slash-take n cs b)

longer : (s : Bytes) → 127 < length s → bytes_eq (take 127 s) s ≡ false
longer s long = elim (Bool-cases (bytes_eq (take 127 s) s)) [
  | inl e ↦
      absurd (omega (arith, length-take 127 s, ap length (bytes_eq→eq (take 127 s) s e), long))
  | inr e ↦ e
]

abbrev holder : Bytes → ℕ → Handler → RouterNode
holder s method h = node (take 127 s) false (set (replicate method_count none) method (some h)) nil

abbrev cut_root : Bytes → ℕ → Handler → RouterNode
cut_root s method h = node [] false (replicate method_count none) (cons (holder s method h) nil)

router_add-cut :
    (c : ℕ) (cs : Bytes) (method : ℕ) (h : Handler)
    → method < method_count
    → no_slash (c ∷ cs) ≡ true
    → c ≢ b':'
    → router_add router_init (pos method) (b'/' ∷ (c ∷ cs)) (some h)
      ≡ some (cut_root (c ∷ cs) method h)
unfolding router_add add_at node_new find_or_create_child modify_child
router_add-cut c cs method h lt plain ne =
    rw (gt→leb method lt, segments-whole c cs plain, pattern_of-plain c cs ne) refl

module _ (c : ℕ) (cs : Bytes) (method : ℕ) (h : Handler) (lt : method < method_count)
    (plain : no_slash (c ∷ cs) ≡ true) where
  match_holder : match_recursive (holder (c ∷ cs) method h) [] method [] ≡ (some h, [])
  unfolding match_recursive
  match_holder =
      ap (λ (o : Option Handler). (o, []))
        (get_or-set_self (replicate method_count none) method (some h) none lt)

  -- the request for the first 127 bytes
  match_cut :
      (before : List RouteParam)
      → router_match
          (some (cut_root (c ∷ cs) method h))
          (pos method)
          (b'/' ∷ take 127 (c ∷ cs))
          before
        ≡ (some h, [])
  unfolding router_match match_recursive
  match_cut before =
      let (next, rest) =
        next_segment-whole (take 127 (c ∷ cs)) (no_slash-take 127 (c ∷ cs) plain) in
      let hit : is_literal (holder (c ∷ cs) method h) (take 127 (c ∷ cs)) ≡ true =
        bytes_eq_self (take 127 (c ∷ cs)) in
      let first =
        match_literals-take method (holder (c ∷ cs) method h) nil (take 127 (c ∷ cs)) [] [] h hit
          match_holder in
      rw (gt→leb method lt) (
        match_recursive-first (cut_root (c ∷ cs) method h) method (b'/' ∷ take 127 (c ∷ cs)) [] c
          (take 126 cs) h refl
          (ap₂ (λ (v r : Bytes). match_literals (cons (holder (c ∷ cs) method h) nil) v r method [])
              next rest
            ∙ first))

  -- the request for the path itself
  match_whole :
      (before : List RouteParam)
      → 127 < length (c ∷ cs)
      → router_match (some (cut_root (c ∷ cs) method h)) (pos method) (b'/' ∷ (c ∷ cs)) before
        ≡ (none, [])
  unfolding router_match match_recursive
  match_whole before long =
      let (next, rest) = next_segment-whole (c ∷ cs) plain in
      let miss : is_literal (holder (c ∷ cs) method h) (c ∷ cs) ≡ false = longer (c ∷ cs) long in
      let kids = cons (holder (c ∷ cs) method h) nil in
      let skipped = match_literals-skip method (holder (c ∷ cs) method h) nil (c ∷ cs) [] [] miss in
      rw (gt→leb method lt) (
        ap
          (λ (r : Option Handler × List RouteParam). or_else r (λ (ps : List RouteParam).
            match_params kids (next_segment (c ∷ cs)) (remaining (c ∷ cs)) method ps))
          (ap₂ (λ (v r : Bytes). match_literals kids v r method []) next rest ∙ skipped))

-- A route with one segment of more than 127 bytes, added to a new router, is not matched by its own
-- path, and is matched by the path that has the first 127 bytes of the segment only.
pub router_match-long :
    (c : ℕ) (cs : Bytes) (method : ℕ) (h : Handler) (before : List RouteParam)
    → method < method_count
    → no_slash (c ∷ cs) ≡ true
    → c ≢ b':'
    → 127 < length (c ∷ cs)
    → (router_match
          (router_add router_init (pos method) (b'/' ∷ (c ∷ cs)) (some h))
          (pos method)
          (b'/' ∷ (c ∷ cs))
          before
        ≡ (none, []))
      × (router_match
            (router_add router_init (pos method) (b'/' ∷ (c ∷ cs)) (some h))
            (pos method)
            (b'/' ∷ take 127 (c ∷ cs))
            before
          ≡ (some h, []))
router_match-long c cs method h before lt plain ne long =
    let added = router_add-cut c cs method h lt plain ne in
    (
      rw added (match_whole c cs method h lt plain before long),
      rw added (match_cut c cs method h lt plain before),
    )
