-- ===== src/Slug.antt =====
-- `slug.make` of src/stdlib_slug.c on the bytes of its argument.
pub mod Shape
mod Tests
use vek.Prelude.{
  ℕ, ◌+◌, Bool, true, false, ◌&&◌, ◌||◌, List, [], ◌∷◌, Bytes, leb, ◌==◌, if◌then◌else◌,
}

abbrev pub to_lower : ℕ → ℕ
to_lower c = if leb b'A' c && leb c b'Z' then c + 32 else c

abbrev pub is_alnum : ℕ → Bool
is_alnum c = leb b'a' c && leb c b'z' || leb b'0' c && leb c b'9'

-- the loop, with `last_was_hyphen`
unfoldable pub slug_loop : Bytes → Bool → Bytes
slug_loop [] last_was_hyphen = []
slug_loop (c ∷ cs) last_was_hyphen =
    if is_alnum (to_lower c)
    then to_lower c ∷ slug_loop cs false
    else if last_was_hyphen
    then slug_loop cs true
    else b'-' ∷ slug_loop cs true

-- drops a hyphen at the end
unfoldable pub trim_hyphen : Bytes → Bytes
trim_hyphen [] = []
trim_hyphen (c ∷ []) = if c == b'-' then [] else c ∷ []
trim_hyphen (c ∷ d ∷ ds) = c ∷ trim_hyphen (d ∷ ds)

unfoldable pub slug_make : Bytes → Bytes
slug_make s = trim_hyphen (slug_loop s true)
