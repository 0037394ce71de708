-- ===== src/Canon/Tests.antt =====
-- Canonical paths.
use route_lang.Common.{◌≡◌, refl, [], ◌∷◌}
use route_lang.Canon.{canonicalize_request, cut_query, finalize_path_canonical}
use route_lang.Canon.Canonical.{
  Cut, Trimmed, canonicalize_request-Trimmed, tokenize_segments-canonicalize_request,
}
use route_lang.Tokens.{Str, tokenize_segments}

abbrev raw : Str
raw = b'/' ∷ b'/' ∷ b'a' ∷ b'p' ∷ b'i' ∷ b'/' ∷ b'/' ∷ b'?' ∷ b'x' ∷ []

-- "//api//?x" becomes "api".
canonicalize_request-api : canonicalize_request raw ≡ b'a' ∷ b'p' ∷ b'i' ∷ []
unfolding canonicalize_request finalize_path_canonical
canonicalize_request-api = refl

canonicalize_request-Trimmed_example :
    (target query : Str) × Cut raw target query × Trimmed target (canonicalize_request raw)
canonicalize_request-Trimmed_example = canonicalize_request-Trimmed raw

tokenize_segments-canonicalize_request_example :
    tokenize_segments (canonicalize_request raw) ≡ tokenize_segments (cut_query raw)
tokenize_segments-canonicalize_request_example = tokenize_segments-canonicalize_request raw
