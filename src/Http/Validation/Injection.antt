-- ===== src/Http/Validation/Injection.antt =====
-- The line that is written for a validated header, in the grammar of the parser.
use route_lang.Common.{ℕ, ◌≡◌, ◌≢◌, refl, ap, sym, ◌∙◌, true, false, List, [], ◌∷◌, ◌++◌, arith}
use mathlib.Core.List.{append_assoc}
use route_lang.Tokens.{Str}
use route_lang.Http.Bytes.Compare.{IsBytes}
use route_lang.Http.Tables.Tchar.{token_table-is_http_tchar, header_value_table-is_value_byte}
use route_lang.Http.Scan.Found.{IsToken, IsValue}
use route_lang.Http.Block.{skip_value_ows, trimmed}
use route_lang.Http.Block.Space.{AllOws, StartsBare, EndsBare, skip_value_ows_split, trimmed_split}
use route_lang.Http.Block.Grammar.{Field, IsField, field_text}
use route_lang.Http.Block.Sound.{IsValue-left}
use route_lang.Http.Validation.{
  ok, is_reserved_response_header_name, all_tchars, value_chars, validate_response_header,
}

-- What a validated pair satisfies.
pub record Valid (key v : Str) : Type 0 where
  pub some_key : key ≢ []
  pub tchars : all_tchars key ≡ true
  pub free : is_reserved_response_header_name key ≡ false
  pub chars : value_chars v ≡ true

pub validate_response_header-Valid :
    (key v : Str) → validate_response_header key v ≡ ok → Valid key v
unfolding validate_response_header
validate_response_header-Valid [] v e = absurd (ground arith)
validate_response_header-Valid (c ∷ key) v e = record {
  some_key = λ x. cc;
  tchars = ground arith;
  free = ground arith;
  chars = ground arith;
}

pub all_tchars-IsToken : (key : Str) → IsBytes key → all_tchars key ≡ true → IsToken key
unfolding all_tchars
all_tchars-IsToken [] b h = tt
all_tchars-IsToken (c ∷ key) b h =
    (ground (arith, token_table-is_http_tchar c b.0), all_tchars-IsToken key b.1 (ground arith))

value_chars-IsValue : (v : Str) → IsBytes v → value_chars v ≡ true → IsValue v
unfolding value_chars
value_chars-IsValue [] b h = tt
value_chars-IsValue (c ∷ v) b h = (
  ground (arith, header_value_table-is_value_byte c b.0),
  value_chars-IsValue v b.1 (ground arith),
)

IsValue-right : (v o : Str) → IsValue (v ++ o) → IsValue o
IsValue-right [] o h = h
IsValue-right (c ∷ v) o h = IsValue-right v o h.1

-- The line that is written for a header.
abbrev pub header_line : Str → Str → List ℕ → List ℕ
header_line key v rest = key ++ (b':' ∷ b' ' ∷ (v ++ (b'\r' ∷ b'\n' ∷ rest)))

-- Whatever follows, the line of a validated header is one header line of the parser's grammar, with
-- this name, and with the value but for spaces and tabs at its ends.
pub header_line-Field :
    (key v : Str) (rest : List ℕ)
    → IsBytes key
    → IsBytes v
    → validate_response_header key v ≡ ok
    → (f : Field) × IsField f
      × (f.name ≡ key)
      × (f.before ++ (f.value ++ f.after) ≡ b' ' ∷ v)
      × (header_line key v rest ≡ field_text f rest)
unfolding field_text
header_line-Field key v rest bk bv e =
    let w : Valid key v = validate_response_header-Valid key v e in
    let o : (o : List ℕ) × (v ≡ o ++ skip_value_ows v) × AllOws o × StartsBare (skip_value_ows v) =
      skip_value_ows_split v in
    let core : Str = skip_value_ows v in
    let t : (s : Str) × (core ≡ trimmed core ++ s) × AllOws s × EndsBare (trimmed core) =
      trimmed_split core in
    let good : IsValue core =
      IsValue-right o.0 core (rw o.1 at (value_chars-IsValue v bv w.chars)) in
    let whole : o.0 ++ (trimmed core ++ t.0) ≡ v = ap (λ x. o.0 ++ x) (sym t.1) ∙ sym o.1 in
    (
      record { name = key; before = b' ' ∷ o.0; value = trimmed core; after = t.0 },
      record {
        named = w.some_key;
        token = all_tchars-IsToken key bk w.tchars;
        ows_before = (refl, o.2);
        ows_after = t.2;
        plain = IsValue-left (trimmed core) t.0 (rw t.1 at good);
        ends = t.3;
        begins = rw t.1 at o.3;
      },
      refl,
      ap (λ x. b' ' ∷ x) whole,
      ap (λ x. key ++ (b':' ∷ b' ' ∷ (x ++ (b'\r' ∷ b'\n' ∷ rest)))) (sym whole)
          ∙ ap (λ x. key ++ (b':' ∷ b' ' ∷ x))
              (append_assoc o.0 (trimmed core ++ t.0) (b'\r' ∷ b'\n' ∷ rest)),
    )
