-- ===== src/Http/Tables/Tchar.antt =====
-- The tables against the conditions that describe them.
use route_lang.Common.{
  ℕ, ◌≡◌, ◌<◌, refl, Bool, true, false, not, ◌&&◌, ◌||◌, ltb, leb, ◌==◌, every_below,
  every_below_lem,
}
use route_lang.Http.Tables.{token_table, header_value_table, uri_table}
use route_lang.Http.Validation.{is_http_tchar}

abbrev same : Bool → Bool → Bool
same true b = b
same false b = not b

same-eq : (a b : Bool) → same a b ≡ true → a ≡ b
same-eq true true h = refl
same-eq true false h = cc
same-eq false true h = cc
same-eq false false h = refl

module _ (f g : ℕ → Bool) (t : every_below (λ c. same (f c) (g c)) 256 ≡ true) where
  agree : (c : ℕ) → c < 256 → f c ≡ g c
  agree c h = same-eq (f c) (g c) (every_below_lem (λ k. same (f k) (g k)) 256 t c h)

-- Visible ASCII, space, tab, and all from 0x80 on.
abbrev pub is_value_byte : ℕ → Bool
is_value_byte c = c == b'\t' || (leb 0x20 c && not (c == 0x7f))

abbrev pub is_uri_byte : ℕ → Bool
is_uri_byte c = ltb 0x20 c && ltb c 0x7f

tchar_checked : every_below (λ c. same (token_table c) (is_http_tchar c)) 256 ≡ true
unfolding every_below token_table is_http_tchar
tchar_checked = refl

value_checked : every_below (λ c. same (header_value_table c) (is_value_byte c)) 256 ≡ true
unfolding every_below header_value_table
value_checked = refl

uri_checked : every_below (λ c. same (uri_table c) (is_uri_byte c)) 256 ≡ true
unfolding every_below uri_table
uri_checked = refl

-- The parser's table of token characters is the validator's test.
pub token_table-is_http_tchar : (c : ℕ) → c < 256 → token_table c ≡ is_http_tchar c
token_table-is_http_tchar = agree token_table is_http_tchar tchar_checked

pub header_value_table-is_value_byte : (c : ℕ) → c < 256 → header_value_table c ≡ is_value_byte c
header_value_table-is_value_byte = agree header_value_table is_value_byte value_checked

pub uri_table-is_uri_byte : (c : ℕ) → c < 256 → uri_table c ≡ is_uri_byte c
uri_table-is_uri_byte = agree uri_table is_uri_byte uri_checked
