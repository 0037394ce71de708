-- ===== src/Http/Validation.antt =====
-- include/rut/common/http_header_validation.h: response headers that a program sets.
mod Tests
pub mod Injection
pub mod Framing
use route_lang.Common.{
  ℕ, ◌+◌, ◌-◌, ◌%◌, ◌^◌, ◌<◌, Bool, true, false, ◌&&◌, ◌||◌, not, List, [], ◌∷◌, ltb, leb, ◌==◌,
  if◌then◌else◌, length, codes,
}
use route_lang.Tokens.{Str}

pub data HttpHeaderValidation : Type 0 where
  ok empty_key invalid_key_char invalid_value_char reserved_key : HttpHeaderValidation

abbrev mem : ℕ → List ℕ → Bool
mem c [] = false
mem c (d ∷ ds) = c == d || mem c ds

unfoldable pub is_http_tchar : ℕ → Bool
is_http_tchar c =
    leb b'0' c && leb c b'9'
    || (leb b'A' c && leb c b'Z' || (leb b'a' c && leb c b'z' || mem c (codes "!#$%&'*+-.^_`|~")))

-- `if (c >= 'A' && c <= 'Z') c += 'a' - 'A'`, on u8.
unfoldable pub lower : ℕ → ℕ
lower c = if leb b'A' c && leb c b'Z' then (c + (b'a' - b'A')) % 2 ^ 8 else c

unfoldable pub eq_ci_bytes : Str → Str → Bool
eq_ci_bytes [] b = true
eq_ci_bytes (x ∷ a) [] = true
eq_ci_bytes (x ∷ a) (y ∷ b) = lower x == lower y && eq_ci_bytes a b

unfoldable pub http_header_name_eq_ci : Str → Str → Bool
unfolding eq_ci_bytes
http_header_name_eq_ci a b = length a == length b && eq_ci_bytes a b

unfoldable pub is_reserved_response_header_name : Str → Bool
is_reserved_response_header_name name =
    http_header_name_eq_ci name (codes "Content-Length")
    || (http_header_name_eq_ci name (codes "Transfer-Encoding")
        || http_header_name_eq_ci name (codes "Connection"))

-- The loop over the bytes of the key.
unfoldable pub all_tchars : Str → Bool
all_tchars [] = true
all_tchars (c ∷ key) = is_http_tchar c && all_tchars key

-- The loop over the bytes of the value.
unfoldable pub value_chars : Str → Bool
value_chars [] = true
value_chars (c ∷ v) = (c == b'\t' || not (ltb c 0x20 || c == 0x7f)) && value_chars v

unfoldable pub validate_response_header : Str → Str → HttpHeaderValidation
unfolding all_tchars value_chars
validate_response_header key v =
    if length key == 0
    then empty_key
    else if not (all_tchars key)
    then invalid_key_char
    else if is_reserved_response_header_name key
    then reserved_key
    else if value_chars v
    then ok
    else invalid_value_char
