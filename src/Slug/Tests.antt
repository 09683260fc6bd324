-- ===== src/Slug/Tests.antt =====
-- Runs of src/stdlib_slug.c.
use vek.Prelude.{◌≡◌, refl, true}
use vek.Lexer.Keywords.{codes}
use vek.Slug.{slug_make, slug_loop, trim_hyphen}
use vek.Slug.Shape.{is_whole_slug, slug_make-is_slug}

run-slug : slug_make (codes "  Hello, World! (2)") ≡ codes "hello-world-2"
unfolding slug_make slug_loop trim_hyphen
run-slug = refl

slug_make-is_slug_example :
    (is_whole_slug (slug_make (codes "A  b!")) ≡ true)
    × (slug_make (slug_make (codes "A  b!")) ≡ slug_make (codes "A  b!"))
slug_make-is_slug_example = slug_make-is_slug (codes "A  b!")
