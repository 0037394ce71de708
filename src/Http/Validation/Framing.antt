-- ===== src/Http/Validation/Framing.antt =====
-- Validated names and the headers that the parser reads the framing from.
use route_lang.Common.{
  ℕ, ◌+◌, ◌/◌, ◌%◌, ◌<◌, ◌≡◌, ◌==◌, ◌&&◌, ◌||◌, refl, ap, sym, ◌∙◌, bit_or, Bool, true, false, [],
  ◌∷◌, length, arith, inl, inr, Bool-cases, if◌then◌else◌, codes, leb, every_below, every_below_lem,
}
use route_lang.Tokens.{Str}
use route_lang.Http.Bytes.{str_ci_eq, ci_eq_bytes}
use route_lang.Http.Bytes.Compare.{IsBytes, str_ci_eq-bytes}
use route_lang.Http.Tables.{token_table}
use route_lang.Http.Scan.Found.{IsToken}
use route_lang.Http.Semantic.{other, semantic}
use route_lang.Http.Block.Grammar.{cr-token}
use route_lang.Http.Validation.{
  ok, lower, eq_ci_bytes, http_header_name_eq_ci, is_reserved_response_header_name,
  validate_response_header,
}
use route_lang.Http.Validation.Injection.{Valid, validate_response_header-Valid, all_tchars-IsToken}

abbrev with_bit : ℕ → ℕ
with_bit c = if c / 32 % 2 == 1 then c else c + 32

or_checked : every_below (λ c. bit_or c 0x20 == with_bit c) 256 ≡ true
unfolding every_below
or_checked = refl

or_bit : (c : ℕ) → c < 256 → bit_or c 0x20 ≡ with_bit c
or_bit c h = ground (arith, every_below_lem (λ k. bit_or k 0x20 == with_bit k) 256 or_checked c h)

-- Lower-case letters and the dash.
abbrev plain : ℕ → Bool
plain d = (leb b'a' d && leb d b'z') || d == b'-'

-- A token character that is `d` under the mask is `d` but for its case.
token_lower :
    (c d : ℕ)
    → c < 256
    → token_table c ≡ true
    → plain d ≡ true
    → (bit_or c 0x20 == bit_or d 0x20) ≡ true
    → lower c ≡ d
unfolding lower
token_lower c d h t p e =
    let small : d < 256 = ground (arith, p) in
    let eq : with_bit c ≡ with_bit d = ground (arith, or_bit c h, or_bit d small, e) in
    elim (Bool-cases (c == b'\r')) [
      | inl cr ↦
          let q : c ≡ b'\r' = ground (arith, cr) in
          absurd (cc (sym t ∙ ap token_table q ∙ cr-token))
      | inr no_cr ↦ ground (arith, eq, no_cr)
    ]

-- `lit` is `text` but for the case.
abbrev cased : Str → Str → Bool
cased [] lit = length lit == 0
cased (d ∷ text) [] = false
cased (d ∷ text) (l ∷ lit) = plain d && (lower l == d && cased text lit)

ci_eq-eq_ci :
    (a text lit : Str)
    → IsBytes a
    → IsToken a
    → length a ≡ length text
    → cased text lit ≡ true
    → ci_eq_bytes a text (length text) ≡ true
    → (eq_ci_bytes a lit ≡ true) × (length lit ≡ length text)
unfolding ci_eq_bytes eq_ci_bytes
ci_eq-eq_ci [] [] lit b t n k e = (refl, ground (arith, k))
ci_eq-eq_ci [] (d ∷ text) lit b t n k e = absurd (omega arith)
ci_eq-eq_ci (c ∷ a) [] lit b t n k e = absurd (omega arith)
ci_eq-eq_ci (c ∷ a) (d ∷ text) [] b t n k e = absurd (ground (arith, k))
ci_eq-eq_ci (c ∷ a) (d ∷ text) (l ∷ lit) b t n k e =
    let r : (eq_ci_bytes a lit ≡ true) × (length lit ≡ length text) =
      ci_eq-eq_ci a text lit b.1 t.1 (omega arith) (ground (arith, k)) (ground (arith, e)) in
    ground (arith, r, token_lower c d b.0 t.0)

-- The same for a name whose first byte is compared by itself.
named :
    (c f : ℕ) (a text lit : Str)
    → IsBytes (c ∷ a)
    → IsToken (c ∷ a)
    → IsBytes text
    → (bit_or c 0x20 == f) ≡ true
    → bit_or f 0x20 ≡ f
    → length a ≡ length text
    → cased (f ∷ text) lit ≡ true
    → str_ci_eq a text (length text) ≡ true
    → http_header_name_eq_ci (c ∷ a) lit ≡ true
unfolding http_header_name_eq_ci
named c f a text lit b t bt first own n k e =
    let bytes : ci_eq_bytes a text (length text) ≡ true =
      sym (str_ci_eq-bytes a text (length text) (omega arith) (omega arith) b.1 bt) ∙ e in
    let whole : ci_eq_bytes (c ∷ a) (f ∷ text) (length (f ∷ text)) ≡ true =
      unfold ci_eq_bytes in ground (arith, first, own, bytes) in
    let r : (eq_ci_bytes (c ∷ a) lit ≡ true) × (length lit ≡ length (f ∷ text)) =
      ci_eq-eq_ci (c ∷ a) (f ∷ text) lit b t (omega arith) k whole in
    ground (arith, r, n)

-- A validated header is none of Content-Length, Transfer-Encoding and Connection for the parser.
pub semantic-validate_response_header :
    (key v : Str) → IsBytes key → validate_response_header key v ≡ ok → semantic key ≡ other
unfolding semantic is_reserved_response_header_name lower
semantic-validate_response_header [] v b e =
    absurd ((validate_response_header-Valid [] v e).some_key refl)
semantic-validate_response_header (c ∷ a) v b e = elim (Bool-cases (bit_or c 0x20 == b'c')) [
  | inl is_c ↦ elim (Bool-cases (length (c ∷ a) == 14 && str_ci_eq a (codes "ontent-length") 13)) [
    | inl length_name ↦ absurd (
        ground (
          arith,
          free,
          named c b'c' a (codes "ontent-length") (codes "Content-Length") b t (omega arith) is_c
              refl (ground (arith, length_name)) refl (ground (arith, length_name)),
        ))
    | inr not_length ↦
        elim (Bool-cases (length (c ∷ a) == 10 && str_ci_eq a (codes "onnection") 9)) [
          | inl connection_name ↦ absurd (
              ground (
                arith,
                free,
                named c b'c' a (codes "onnection") (codes "Connection") b t (omega arith) is_c refl
                    (ground (arith, connection_name)) refl (ground (arith, connection_name)),
              ))
          | inr not_connection ↦ ground (arith, is_c, not_length, not_connection)
        ]
  ]
  | inr not_c ↦ elim (Bool-cases (bit_or c 0x20 == b't')) [
    | inr not_t ↦ ground (arith, not_c, not_t)
    | inl is_t ↦
        elim (Bool-cases (length (c ∷ a) == 17 && str_ci_eq a (codes "ransfer-encoding") 16)) [
          | inl encoding_name ↦ absurd (
              ground (
                arith,
                free,
                named c b't' a (codes "ransfer-encoding") (codes "Transfer-Encoding") b t
                    (omega arith) is_t refl (ground (arith, encoding_name)) refl
                    (ground (arith, encoding_name)),
              ))
          | inr not_encoding ↦ ground (arith, not_c, is_t, not_encoding)
        ]
  ]
]
  where
    w : Valid (c ∷ a) v
    w = validate_response_header-Valid (c ∷ a) v e

    free : is_reserved_response_header_name (c ∷ a) ≡ false
    free = w.free

    t : IsToken (c ∷ a)
    t = all_tchars-IsToken (c ∷ a) b w.tchars
