-- ===== src/Http/Validation/Tests.antt =====
-- Response headers that a program sets.
use route_lang.Common.{◌≡◌, refl, arith, ◌∷◌, ◌++◌, codes}
use route_lang.Http.Semantic.{other, semantic}
use route_lang.Http.Block.Grammar.{Field, IsField, field_text}
use route_lang.Http.Validation.{
  ok, is_http_tchar, http_header_name_eq_ci, is_reserved_response_header_name,
  validate_response_header,
}
use route_lang.Http.Validation.Injection.{header_line, header_line-Field}
use route_lang.Http.Validation.Framing.{semantic-validate_response_header}

validate-server : validate_response_header (codes "Server") (codes "a b ") ≡ ok
unfolding validate_response_header is_http_tchar is_reserved_response_header_name
    http_header_name_eq_ci
validate-server = refl

header_line-Field_example :
    (f : Field) × IsField f
    × (f.name ≡ codes "Server")
    × (f.before ++ (f.value ++ f.after) ≡ b' ' ∷ codes "a b ")
    × (header_line (codes "Server") (codes "a b ") (codes "x") ≡ field_text f (codes "x"))
header_line-Field_example =
    header_line-Field (codes "Server") (codes "a b ") (codes "x") (omega arith) (omega arith)
      validate-server

semantic-validate_response_header_example : semantic (codes "Server") ≡ other
semantic-validate_response_header_example =
    semantic-validate_response_header (codes "Server") (codes "a b ") (omega arith) validate-server
