-- ===== src/Lexer/Next/Words.antt =====
-- Identifiers and keywords in src/lexer.c: `scan_identifier` and `identifier_type`.
use vek.Prelude.{
  ◌⊎◌, inl, inr, sym, List, Bool-cases, bytes_eq→eq, bytes_eq_self, bytes_eq, ℕ, suc, ◌-◌, Bool,
  true, false, ◌≡◌, ◌≢◌, refl, some, [], ◌∷◌, ◌++◌, Bytes, arith, ◌&&◌, length, take, get_elem?, ap,
  All, All-get_elem?, length-append,
}
use vek.Lexer.{TokenType, identifier}
use vek.Lexer.Scan.{
  peek, skip_whitespace, skip_while, make_token, is_alpha, is_word, identifier_end, scan_identifier,
}
use vek.Lexer.Keywords.{identifier_type, keyword_type, keywords}
use vek.Lexer.Next.{scan_from, scan_token, lexer_next_token}

-- every byte of the word passes
unfoldable pub all_word : Bytes → Bool
all_word [] = true
all_word (c ∷ cs) = is_word c && all_word cs

skip_while-word :
    (w rest : Bytes)
    → all_word w ≡ true
    → is_word (peek rest) ≡ false
    → skip_while is_word (w ++ rest) ≡ rest
unfolding skip_while all_word
skip_while-word [] [] h k = refl
skip_while-word [] (d ∷ ds) h k = rw k
skip_while-word (c ∷ cs) rest h k = ground (arith, skip_while-word cs rest)

take-append : (w rest : Bytes) → take (length w) (w ++ rest) ≡ w
take-append [] rest = refl
take-append (c ∷ cs) rest = ap (◌∷◌ c) (take-append cs rest)

lexeme_length : (w rest : Bytes) → length (w ++ rest) - length rest ≡ length w
lexeme_length w rest = omega (arith, length-append {0} w rest)

skip_whitespace-alpha : (c : ℕ) (s : Bytes) → is_alpha c ≡ true → skip_whitespace (c ∷ s) ≡ c ∷ s
unfolding skip_whitespace is_alpha
skip_whitespace-alpha c s h = ground arith

-- What follows a word: no byte of a word, and no `?`.
pub record IsDelimited (rest : Bytes) : Type 0 where
  pub no_word : is_word (peek rest) ≡ false
  pub no_question : peek rest ≢ b'?'

identifier_end-word :
    (w rest : Bytes) → all_word w ≡ true → IsDelimited rest → identifier_end (w ++ rest) ≡ rest
unfolding identifier_end
identifier_end-word w rest k d =
    rw (skip_while-word w rest k d.no_word) (ground (arith, d.no_question))

identifier_type-word :
    (w rest : Bytes)
    → identifier_type (w ++ rest) (length (w ++ rest) - length rest) ≡ keyword_type keywords w
unfolding identifier_type
identifier_type-word w rest = rw (lexeme_length w rest, take-append w rest) refl

scan_identifier-word :
    (c : ℕ) (cs rest : Bytes) (line : ℕ)
    → all_word cs ≡ true
    → IsDelimited rest
    → scan_identifier (record { start = c ∷ (cs ++ rest); current = cs ++ rest; line = line }) ≡ (
      record {
        type = keyword_type keywords (c ∷ cs);
        start = c ∷ (cs ++ rest);
        length = suc (length cs);
        line = line;
      },
      record { start = c ∷ (cs ++ rest); current = rest; line = line },
    )
unfolding scan_identifier make_token
scan_identifier-word c cs rest line k d =
    rw
      (
        identifier_end-word cs rest k d,
        identifier_type-word (c ∷ cs) rest,
        lexeme_length (c ∷ cs) rest,
      )
      refl

-- The type that goes with a word: that of a row of the table with exactly this word, or `identifier` where
-- no row has it.
abbrev pub IsTypeOf : Bytes → TokenType → Type 0
IsTypeOf word type =
    ((i : ℕ) × (get_elem? keywords i ≡ some (word, type)))
    ⊎ ((type ≡ identifier) × All (λ row. row.0 ≢ word) keywords)

keyword_type-cases :
    (table : List (Bytes × TokenType)) (word : Bytes)
    → ((i : ℕ) × (get_elem? table i ≡ some (word, keyword_type table word)))
      ⊎ ((keyword_type table word ≡ identifier) × All (λ row. row.0 ≢ word) table)
unfolding keyword_type
keyword_type-cases [] word = inr (refl, tt)
keyword_type-cases ((name, type) ∷ rest) word = elim (Bool-cases (bytes_eq word name)) [
  | inl same ↦ inl (0, rw same (ap (λ w. some (w, type)) (sym (bytes_eq→eq word name same))))
  | inr other ↦ elim (keyword_type-cases rest word) [
    | inl (i, e) ↦ inl (suc i, rw other e)
    | inr (e, absent) ↦
        inr
          (rw other e, ((λ same. cc (ap (bytes_eq word) same, bytes_eq_self word, other)), absent))
  ]
]

-- A letter or underscore followed by letters, digits and underscores is one token, up to the first
-- byte that is none of these and no `?`: its type is that of the row of the keyword table with exactly
-- this word, or `identifier` if there is none, its text is the whole word, and the line stays.
pub lexer_next_token-word :
    (c : ℕ) (cs rest s : Bytes) (line : ℕ)
    → is_alpha c ≡ true
    → all_word cs ≡ true
    → IsDelimited rest
    → (type : TokenType) × (lexer_next_token
          (record { start = s; current = c ∷ (cs ++ rest); line = line })
        ≡ (
          record { type = type; start = c ∷ (cs ++ rest); length = suc (length cs); line = line },
          record { start = c ∷ (cs ++ rest); current = rest; line = line },
        ))
      × IsTypeOf (c ∷ cs) type
unfolding lexer_next_token scan_token scan_from
lexer_next_token-word c cs rest s line h k d = (
  keyword_type keywords (c ∷ cs),
  rw (skip_whitespace-alpha c (cs ++ rest) h, h) (scan_identifier-word c cs rest line k d),
  keyword_type-cases keywords (c ∷ cs),
)

keyword_table : All (λ entry. keyword_type keywords entry.0 ≡ entry.1) keywords
unfolding keyword_type bytes_eq
keyword_table = search tt depth 80

-- Each word of the keyword table has the type that the table gives it.
pub keyword_type-keywords :
    (i : ℕ) (name : Bytes) (type : TokenType)
    → get_elem? keywords i ≡ some (name, type)
    → keyword_type keywords name ≡ type
keyword_type-keywords i name type e =
    All-get_elem? (λ entry. keyword_type keywords entry.0 ≡ entry.1) keywords i keyword_table e
