-- ===== src/Http/Methods.antt =====
-- The method names of src/http_parser.c.
use vek.Prelude.{
  Bytes, bytes_eq, bytes_eq→eq, Bool-cases, ◌≡◌, refl, sym, ◌⊎◌, inl, inr, if◌then◌else◌,
}
use vek.Http.{
  HttpMethod, http_get, http_post, http_put, http_patch, http_delete, http_head, http_options,
  http_method_unknown, parse_method, http_method_str,
}

-- a method whose name is the text, or unknown
Named : Bytes → HttpMethod → Type 0
Named s m = (m ≡ http_method_unknown) ⊎ (http_method_str m ≡ s)

Named-if :
    (s : Bytes) (m other : HttpMethod)
    → Named s other
    → Named s (if bytes_eq s (http_method_str m) then m else other)
unfolding Named
Named-if s m other h = elim (Bool-cases (bytes_eq s (http_method_str m))) [
  | inl e ↦ rw e (inr (sym (bytes_eq→eq s (http_method_str m) e)))
  | inr e ↦ rw e h
]

parse_method-Named : (s : Bytes) → Named s (parse_method s)
unfolding parse_method Named
parse_method-Named s = Named-if s http_get _ (
    Named-if s http_put _ (
      Named-if s http_post _ (
        Named-if s http_head _ (
          Named-if s http_patch _
            (Named-if s http_delete _ (Named-if s http_options http_method_unknown (inl refl)))))))

parse_method-http_method_str : (m : HttpMethod) → parse_method (http_method_str m) ≡ m
unfolding parse_method bytes_eq
parse_method-http_method_str http_get = refl
parse_method-http_method_str http_post = refl
parse_method-http_method_str http_put = refl
parse_method-http_method_str http_patch = refl
parse_method-http_method_str http_delete = refl
parse_method-http_method_str http_head = refl
parse_method-http_method_str http_options = refl
parse_method-http_method_str http_method_unknown = refl

-- The name of each method is parsed as that method, and a text that is parsed as a method other than
-- the unknown one is the name of that method.
pub http_method_str_roundtrip :
    (m : HttpMethod) (s : Bytes)
    → (parse_method (http_method_str m) ≡ m)
      × ((parse_method s ≡ http_method_unknown) ⊎ (http_method_str (parse_method s) ≡ s))
unfolding Named
http_method_str_roundtrip m s = (parse_method-http_method_str m, parse_method-Named s)
