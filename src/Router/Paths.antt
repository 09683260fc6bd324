-- ===== src/Router/Paths.antt =====
-- The two ways in which src/router.c cuts a path at its slashes are the same.
use vek.Prelude.{ℕ, Bool-cases, ◌≡◌, refl, inl, inr, [], ◌∷◌, Bytes, ap, ◌==◌}
use vek.Router.{segments, extend_first, next_segment, remaining, skip_slash}

pub segments-cons :
    (c : ℕ) (cs : Bytes)
    → segments (c ∷ cs) ≡ next_segment (c ∷ cs) ∷ segments (skip_slash (remaining (c ∷ cs)))
unfolding segments
segments-cons c [] = elim (Bool-cases (c == b'/')) [ inl e ↦ rw (e, e) refl | inr e ↦ rw e refl ]
segments-cons c (d ∷ ds) = elim (Bool-cases (c == b'/')) [
  | inl e ↦ rw (e, e) refl
  | inr e ↦ rw e (ap (extend_first c) (segments-cons d ds))
]
