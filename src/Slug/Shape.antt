-- ===== src/Slug/Shape.antt =====
-- What a slug of src/stdlib_slug.c looks like.
use vek.Prelude.{
  ℕ, Bool, true, false, not, ◌&&◌, ◌||◌, Bool-cases, ◌≡◌, ◌∙◌, refl, ap, inl, inr, [], ◌∷◌, Bytes,
  ◌==◌, if◌then◌else◌, arith,
}
use vek.Slug.{slug_make, slug_loop, trim_hyphen, to_lower, is_alnum}

-- Letters, digits and single hyphens, none of them at the start if `after` says that one went before,
-- and none at the end unless `loose` allows it.
unfoldable pub is_slug : Bool → Bool → Bytes → Bool
is_slug loose after [] = loose || not after
is_slug loose after (c ∷ cs) =
    if c == b'-' then not after && is_slug loose true cs else is_alnum c && is_slug loose false cs

-- a slug, where the empty text is one
unfoldable pub is_whole_slug : Bytes → Bool
is_whole_slug [] = true
is_whole_slug (c ∷ cs) = is_slug false true (c ∷ cs)

slug_loop-is_slug : (s : Bytes) (after : Bool) → is_slug true after (slug_loop s after) ≡ true
unfolding is_slug slug_loop
slug_loop-is_slug [] after = refl
slug_loop-is_slug (c ∷ cs) after = elim (Bool-cases (is_alnum (to_lower c))) [
  | inl e ↦ rw e (ground (arith, e, slug_loop-is_slug cs false))
  | inr e ↦ elim (Bool-cases after) [
    | inl f ↦ rw (e, f) (slug_loop-is_slug cs true)
    | inr f ↦ rw (e, f) (slug_loop-is_slug cs true)
  ]
]

trim_hyphen-is_slug :
    (c : ℕ) (cs : Bytes) (after : Bool)
    → is_slug true after (c ∷ cs) ≡ true
    → is_slug false after (trim_hyphen (c ∷ cs)) ≡ true
unfolding is_slug trim_hyphen
trim_hyphen-is_slug c [] after h = elim (Bool-cases (c == b'-')) [
  | inl e ↦ rw e (ground (arith, e, h))
  | inr e ↦ rw e (ground (arith, e, h))
]
trim_hyphen-is_slug c (d ∷ ds) after h =
    ground (arith, h, trim_hyphen-is_slug d ds true, trim_hyphen-is_slug d ds false)

-- a slug is its own slug
slug_loop_self : (s : Bytes) (after : Bool) → is_slug true after s ≡ true → slug_loop s after ≡ s
unfolding is_slug slug_loop
slug_loop_self [] after h = refl
slug_loop_self (c ∷ cs) after h = ground (arith, h, slug_loop_self cs true, slug_loop_self cs false)

is_slug-weaken :
    (s : Bytes) (after : Bool) → is_slug false after s ≡ true → is_slug true after s ≡ true
unfolding is_slug
is_slug-weaken [] after h = refl
is_slug-weaken (c ∷ cs) after h = ground (arith, h, is_slug-weaken cs true, is_slug-weaken cs false)

trim_hyphen_self : (s : Bytes) (after : Bool) → is_slug false after s ≡ true → trim_hyphen s ≡ s
unfolding is_slug trim_hyphen
trim_hyphen_self [] after h = refl
trim_hyphen_self (c ∷ []) after h = ground (arith, h)
trim_hyphen_self (c ∷ d ∷ ds) after h =
    ap (◌∷◌ c) (ground (arith, h, trim_hyphen_self (d ∷ ds) true, trim_hyphen_self (d ∷ ds) false))

whole_of : (s : Bytes) → is_slug false true s ≡ true → is_whole_slug s ≡ true
unfolding is_whole_slug
whole_of [] h = refl
whole_of (c ∷ cs) h = h

trim_hyphen-whole : (s : Bytes) → is_slug true true s ≡ true → is_whole_slug (trim_hyphen s) ≡ true
unfolding trim_hyphen is_whole_slug
trim_hyphen-whole [] h = refl
trim_hyphen-whole (c ∷ cs) h = whole_of (trim_hyphen (c ∷ cs)) (trim_hyphen-is_slug c cs true h)

slug_make_self : (s : Bytes) → is_whole_slug s ≡ true → slug_make s ≡ s
unfolding is_whole_slug slug_make slug_loop trim_hyphen
slug_make_self [] h = refl
slug_make_self (c ∷ cs) h =
    ap trim_hyphen (slug_loop_self (c ∷ cs) true (is_slug-weaken (c ∷ cs) true h))
    ∙ trim_hyphen_self (c ∷ cs) true h

made : (s : Bytes) → is_whole_slug (slug_make s) ≡ true
unfolding slug_make
made s = trim_hyphen-whole (slug_loop s true) (slug_loop-is_slug s true)

-- A slug has lower-case letters, digits and hyphens only, with no hyphen at either end and no two in a
-- row, and the slug of a slug is that slug.
pub slug_make-is_slug :
    (s : Bytes) → (is_whole_slug (slug_make s) ≡ true) × (slug_make (slug_make s) ≡ slug_make s)
slug_make-is_slug s =
    let whole : is_whole_slug (slug_make s) ≡ true = made s in
    (whole, slug_make_self (slug_make s) whole)
