-- ===== src/Router/Steps.antt =====
-- One round of the loops of `match_recursive` in src/router.c.
use vek.Prelude.{
  ℕ, suc, ◌+◌, ◌≤◌, ◌<◌, Bool, true, false, not, ◌&&◌, ◌≡◌, ◌∙◌, refl, sym, ap, subst, inl, inr,
  some, List, [], ◌∷◌, ◌++◌, append_assoc, Bytes, length, take, ltb, leb, ltb→lt, arith,
  length-append, bytes_eq, bytes_eq→eq, bytes_eq_self,
}
use vek.Router.{
  RouterNode, Nodes, cons, nil, RouteParam, Handler, segment, is_param, is_literal, capture,
  segments, skip_slash, or_else, max_params, method_count,
}
use vek.Router.Routes.{first, later, Route}
use vek.Router.Match.{
  Result, Answers, or_else-Answers, ByLiteral, ByParam, In-cases, In-single, In-same,
}

-- both sides of a test that holds
pub and-true : (a b : Bool) → (a && b) ≡ true → (a ≡ true) × (b ≡ true)
and-true a b h = ground arith

literal_takes :
    (child : RouterNode) (value : Bytes)
    → is_literal child value ≡ true
    → (is_param child ≡ false) × (segment child ≡ value)
literal_takes child value h =
    let (p, e) = and-true (not (is_param child)) (bytes_eq (segment child) value) h in
    (ground (arith, p), bytes_eq→eq (segment child) value e)

is_literal-of :
    (child : RouterNode) (value : Bytes)
    → is_param child ≡ false
    → segment child ≡ value
    → is_literal child value ≡ true
is_literal-of child value p e = rw (p, e) (bytes_eq_self value)

take-append_self {ℓ} : {A : Type ℓ} (xs ys : List A) → take (length xs) (xs ++ ys) ≡ xs
take-append_self [] ys = refl
take-append_self (x ∷ xs) ys = ap (◌∷◌ x) (take-append_self xs ys)

no_room :
    (child : RouterNode) (params caps more : List RouteParam) (mine : RouteParam)
    → (is_param child && ltb (length params) max_params) ≡ false
    → is_param child ≡ true
    → caps ≡ mine ∷ more
    → ¬ (length params + length caps ≤ max_params)
no_room child params caps more mine e p s room =
    let len : length caps ≡ suc (length more) = ap length s in ground (arith, e, p, len, room)

pub one_more :
    (child : RouterNode) (params : List RouteParam) (mine : RouteParam)
    → (is_param child && ltb (length params) max_params) ≡ true
    → length (params ++ (mine ∷ [])) ≤ max_params
one_more child params mine e =
    let (q, lt) = and-true (is_param child) (ltb (length params) max_params) e in
    omega (arith, ltb→lt (length params) max_params lt, length-append params (mine ∷ []))

pub gt→leb : (method : ℕ) → method < method_count → leb method_count method ≡ false
gt→leb method lt = ground arith

module _ (method : ℕ) (value rest : Bytes) where
  abbrev pub Literals : Nodes → List RouteParam → Handler → Type 0
  Literals kids = ByLiteral method kids value (segments (skip_slash rest))

  abbrev pub Params : Nodes → List RouteParam → Handler → Type 0
  Params kids = ByParam method kids value (segments (skip_slash rest))

  abbrev pub Below : RouterNode → List RouteParam → Handler → Type 0
  Below child caps h = Route method h child (segments (skip_slash rest)) caps

  pub skip_literal :
      (child : RouterNode) (kids : Nodes) (params : List RouteParam) (r : Result)
      → is_literal child value ≡ false
      → Answers (Literals kids) params params r
      → Answers (Literals (cons child kids)) params params r
  skip_literal child kids params r e (inl (h, caps, eq, (c, i, p, s, route), room)) =
      inl (h, caps, eq, (c, later i, p, s, route), room)
  skip_literal child kids params r e (inr (eq, bare)) = inr (
    eq,
    λ (h, caps, (c, i, p, s, route), room). elim (In-cases c child kids i) [
      | inl same ↦
          cc (is_literal-of child value (ap is_param (sym same) ∙ p) (ap segment (sym same) ∙ s))
      | inr i' ↦ bare (h, caps, (c, i', p, s, route), room)
    ],
  )

  pub take_literal :
      (child : RouterNode) (kids : Nodes) (params : List RouteParam) (r : Result)
      (other : List RouteParam → Result)
      → is_literal child value ≡ true
      → Answers (Below child) params params r
      → Answers (Literals kids) params params (other params)
      → Answers (Literals (cons child kids)) params params (or_else r other)
  take_literal child kids params r other e a b =
      let (p, s) = literal_takes child value e in
      or_else-Answers (Below child) (Literals kids) (Literals (cons child kids)) params params
        params r other (λ caps h route. (child, first, p, s, route))
        (λ caps h (c, i, q, t, route). (c, later i, q, t, route))
        (λ caps h (c, i, q, t, route). elim (In-cases c child kids i) [
          | inl same ↦ inl (subst (λ (n : RouterNode). Below n caps h) same route)
          | inr i' ↦ inr (c, i', q, t, route)
        ])
        a b

  pub skip_param :
      (child : RouterNode) (kids : Nodes) (params : List RouteParam) (r : Result)
      → (is_param child && ltb (length params) max_params) ≡ false
      → Answers (Params kids) params params r
      → Answers (Params (cons child kids)) params params r
  skip_param child kids params r e (inl (h, caps, eq, (c, more, i, p, s, route), room)) =
      inl (h, caps, eq, (c, more, later i, p, s, route), room)
  skip_param child kids params r e (inr (eq, bare)) = inr (
    eq,
    λ (h, caps, (c, more, i, p, s, route), room). elim (In-cases c child kids i) [
      | inl same ↦
          absurd
            (no_room child params caps more (capture c value) e (ap is_param (sym same) ∙ p) s room)
      | inr i' ↦ bare (h, caps, (c, more, i', p, s, route), room)
    ],
  )

  -- the parameter's own answers, seen from before its capture
  captured :
      (child : RouterNode) (params : List RouteParam) (r : Result)
      → is_param child ≡ true
      → Answers
          (Below child)
          (params ++ (capture child value ∷ []))
          (params ++ (capture child value ∷ []))
          r
      → Answers (Params (cons child nil)) params (params ++ (capture child value ∷ [])) r
  captured child params r q (inl (h, caps, eq, route, room)) = inl (
    h,
    capture child value ∷ caps,
    eq
        ∙ ap (λ (ps : List RouteParam). (some h, ps))
            (append_assoc params (capture child value ∷ []) caps),
    (child, caps, first, q, refl, route),
    omega (arith, room, length-append params (capture child value ∷ [])),
  )
  captured child params r q (inr (eq, bare)) = inr (
    eq,
    λ (h, caps, (c, more, i, p, s, route), room).
        let len : length caps ≡ suc (length more) = ap length s in
        bare (
          h,
          more,
          subst (λ (n : RouterNode). Below n more h) (In-single c child i) route,
          omega (arith, len, room, length-append params (capture child value ∷ [])),
        ),
  )

  pub take_param :
      (child : RouterNode) (kids : Nodes) (params : List RouteParam) (r : Result)
      (other : List RouteParam → Result)
      → is_param child ≡ true
      → Answers
          (Below child)
          (params ++ (capture child value ∷ []))
          (params ++ (capture child value ∷ []))
          r
      → Answers (Params kids) params params (other params)
      → Answers
          (Params (cons child kids))
          params
          params
          (or_else r (λ ps. other (take (length params) ps)))
  take_param child kids params r other q a b =
      or_else-Answers (Params (cons child nil)) (Params kids) (Params (cons child kids)) params
        (params ++ (capture child value ∷ [])) params r (λ ps. other (take (length params) ps))
        (λ caps h (c, more, i, p, s, route).
          (c, more, In-same c child kids (In-single c child i), p, s, route))
        (λ caps h (c, more, i, p, s, route). (c, more, later i, p, s, route))
        (λ caps h (c, more, i, p, s, route). elim (In-cases c child kids i) [
          | inl same ↦ inl (c, more, In-same c child nil same, p, s, route)
          | inr i' ↦ inr (c, more, i', p, s, route)
        ])
        (captured child params r q a)
        (subst (λ (ps : List RouteParam). Answers (Params kids) params params (other ps))
          (sym (take-append_self params (capture child value ∷ []))) b)
