-- ===== src/Lexer/Keywords.antt =====
-- The keyword table and `identifier_type` of src/lexer.c.
use Prim.Native.Char.{code}
use Prim.Native.String.{String}
use vek.Prelude.{bytes_eq, ℕ, List, [], ◌∷◌, Bytes, take, if◌then◌else◌}
use vek.Lexer.{
  TokenType, identifier, kw_and, kw_begin, kw_break, kw_case, kw_delete, kw_do, kw_else, kw_elsif,
  kw_end, kw_false, kw_fn, kw_for, kw_get, kw_halt, kw_if, kw_in, kw_loop, kw_module, kw_next,
  kw_nil, kw_not, kw_or, kw_patch, kw_post, kw_put, kw_raise, kw_redirect, kw_render, kw_rescue,
  kw_return, kw_then, kw_true, kw_unless, kw_until, kw_while,
}

-- The code points of a literal, which are its bytes: every literal here is ASCII.
abbrev pub codes : String → Bytes
codes String.[] = []
codes (String.◌∷◌ c s) = code c ∷ codes s

abbrev pub keywords : List (Bytes × TokenType)
keywords =
    (codes "and", kw_and)
    ∷ (codes "begin", kw_begin)
    ∷ (codes "break", kw_break)
    ∷ (codes "case", kw_case)
    ∷ (codes "delete", kw_delete)
    ∷ (codes "do", kw_do)
    ∷ (codes "else", kw_else)
    ∷ (codes "elsif", kw_elsif)
    ∷ (codes "end", kw_end)
    ∷ (codes "false", kw_false)
    ∷ (codes "fn", kw_fn)
    ∷ (codes "for", kw_for)
    ∷ (codes "get", kw_get)
    ∷ (codes "halt", kw_halt)
    ∷ (codes "if", kw_if)
    ∷ (codes "in", kw_in)
    ∷ (codes "loop", kw_loop)
    ∷ (codes "module", kw_module)
    ∷ (codes "next", kw_next)
    ∷ (codes "nil", kw_nil)
    ∷ (codes "not", kw_not)
    ∷ (codes "or", kw_or)
    ∷ (codes "patch", kw_patch)
    ∷ (codes "post", kw_post)
    ∷ (codes "put", kw_put)
    ∷ (codes "raise", kw_raise)
    ∷ (codes "redirect", kw_redirect)
    ∷ (codes "render", kw_render)
    ∷ (codes "rescue", kw_rescue)
    ∷ (codes "return", kw_return)
    ∷ (codes "then", kw_then)
    ∷ (codes "true", kw_true)
    ∷ (codes "unless", kw_unless)
    ∷ (codes "until", kw_until)
    ∷ (codes "while", kw_while)
    ∷ []

-- the loop of `identifier_type`
unfoldable pub keyword_type : List (Bytes × TokenType) → Bytes → TokenType
keyword_type [] word = identifier
keyword_type ((name, type) ∷ rest) word =
    if bytes_eq word name then type else keyword_type rest word

unfoldable pub identifier_type : Bytes → ℕ → TokenType
identifier_type start length = keyword_type keywords (take length start)
