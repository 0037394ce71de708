-- ===== src/Http/Response/Laws.antt =====
-- Which bytes `parse_response` takes for a response.
use route_lang.Common.{
  ℕ, ◌+◌, ◌*◌, ◌/◌, ◌%◌, ◌≤◌, ◌<◌, ◌≡◌, ◌⊎◌, ◌==◌, refl, ap, Bool, true, false, List, [], ◌∷◌, ◌++◌,
  length, length-append, drop, All, arith, inl, inr, Bool-cases, codes,
}
use route_lang.Tokens.{Str}
use route_lang.Http.{ParsedResponse, empty_response, Parsed}
use route_lang.Http.Bytes.{load}
use route_lang.Http.Block.Grammar.{
  Field, IsField, block_text, store_all, stored, parse_headers-block,
}
use route_lang.Http.Request.Laws.{length-block_text}
use route_lang.Http.Response.{
  store_header_response, scan_cr, parse_status_end, digit, parse_status, parse_response,
}

-- What a status line and its headers say. `reason` is all between the code and the `\r`, with the
-- space in front.
pub record Response : Type 0 where
  pub minor : Bool
  pub code : ℕ
  pub reason : Str
  pub fields : List Field

pub record IsResponse (r : Response) : Type 0 where
  pub low : 100 ≤ r.code
  pub high : r.code ≤ 599
  pub plain : All (λ c. (c == b'\r') ≡ false) r.reason
  pub valid : All IsField r.fields

abbrev pub prefix_str : Bool → List ℕ → List ℕ
prefix_str true rest = codes "HTTP/1.1 " ++ rest
prefix_str false rest = codes "HTTP/1.0 " ++ rest

unfoldable pub response_text : Response → List ℕ → List ℕ
response_text r body = prefix_str r.minor (
    (b'0' + r.code / 100)
    ∷ (b'0' + r.code / 10 % 10)
    ∷ (b'0' + r.code % 10)
    ∷ (r.reason ++ (b'\r' ∷ b'\n' ∷ block_text r.fields body)))

abbrev pub status_of : Response → ParsedResponse
status_of r = record empty_response { status_code = r.code; keep_alive = r.minor }

-- The headers stored one after the other.
unfoldable pub response_meaning : Response → List ℕ → Parsed ParsedResponse
response_meaning r body =
    stored store_header_response (store_all store_header_response r.fields (status_of r)) body

scan_cr-append :
    (reason rest : List ℕ)
    → All (λ c. (c == b'\r') ≡ false) reason
    → scan_cr (reason ++ (b'\r' ∷ rest)) ≡ b'\r' ∷ rest
unfolding scan_cr
scan_cr-append [] rest h = refl
scan_cr-append (c ∷ reason) rest h = rw h.0 (scan_cr-append reason rest h.1)

pub scan_cr_split :
    (p : List ℕ)
    → (scan_cr p ≡ [])
      ⊎ ((reason : Str) × (p ≡ reason ++ scan_cr p)
          × All (λ c. (c == b'\r') ≡ false) reason
          × (scan_cr p ≡ b'\r' ∷ drop 1 (scan_cr p)))
unfolding scan_cr
scan_cr_split [] = inl refl
scan_cr_split (c ∷ p) = elim (Bool-cases (c == b'\r')) [
  | inl cr ↦ inr ([], ground (arith, cr), tt, ground (arith, cr))
  | inr other ↦ elim (scan_cr_split p) [
    | inl nothing ↦ inl (rw other nothing)
    | inr (reason, t, h, s) ↦ rw other (inr (c ∷ reason, ap (◌∷◌ c) t, (other, h), s))
  ]
]

parse_status_end-text :
    (buf : List ℕ) (resp : ParsedResponse) (fs : List Field) (body : List ℕ)
    → All IsField fs
    → length fs < length buf
    → parse_status_end buf resp (b'\r' ∷ b'\n' ∷ block_text fs body)
      ≡ stored store_header_response (store_all store_header_response fs resp) body
unfolding parse_status_end
parse_status_end-text buf resp fs body h lt =
    parse_headers-block store_header_response buf fs (length buf) body resp h lt

parse_status-text :
    (buf : List ℕ) (r : Response) (body : List ℕ)
    → IsResponse r
    → length r.fields < length buf
    → parse_status buf r.minor (
        (b'0' + r.code / 100)
        ∷ (b'0' + r.code / 10 % 10)
        ∷ (b'0' + r.code % 10)
        ∷ (r.reason ++ (b'\r' ∷ b'\n' ∷ block_text r.fields body)))
      ≡ response_meaning r body
unfolding parse_status response_meaning
parse_status-text buf r body w lt = ground (
  arith,
  w.low,
  w.high,
  hundreds,
  tens,
  ones,
  code,
  length-append r.reason (b'\r' ∷ b'\n' ∷ block_text r.fields body),
  scan_cr-append r.reason (b'\n' ∷ block_text r.fields body) w.plain,
  parse_status_end-text buf (status_of r) r.fields body w.valid lt,
)
  where
    hundreds : digit (b'0' + r.code / 100) ≡ r.code / 100
    hundreds = omega (arith, w.high)

    tens : digit (b'0' + r.code / 10 % 10) ≡ r.code / 10 % 10
    tens = omega (arith, w.high)

    ones : digit (b'0' + r.code % 10) ≡ r.code % 10
    ones = omega (arith, w.high)

    code : r.code / 100 * 100 + r.code / 10 % 10 * 10 + r.code % 10 ≡ r.code
    code = omega arith

-- The text of a response, with any body behind it, is parsed to its meaning.
pub parse_response-text :
    (r : Response) (body : List ℕ)
    → IsResponse r
    → parse_response (response_text r body) ≡ response_meaning r body
unfolding parse_response response_text load
parse_response-text r body w = split r.minor refl
  where
    digits : List ℕ
    digits =
        (b'0' + r.code / 100)
        ∷ (b'0' + r.code / 10 % 10)
        ∷ (b'0' + r.code % 10)
        ∷ (r.reason ++ (b'\r' ∷ b'\n' ∷ block_text r.fields body))

    size : (k : ℕ) → length r.fields < k + length digits
    size k = omega (
      arith,
      length-block_text r.fields body,
      length-append r.reason (b'\r' ∷ b'\n' ∷ block_text r.fields body),
    )

    split :
        (minor : Bool)
        → r.minor ≡ minor
        → parse_response (prefix_str r.minor digits) ≡ response_meaning r body
    split true e =
        let p : parse_status (codes "HTTP/1.1 " ++ digits) r.minor digits
            ≡ response_meaning r body =
          parse_status-text (codes "HTTP/1.1 " ++ digits) r body w (omega (arith, size 9)) in
        rw e (ground (arith, e, p))
    split false e =
        let p : parse_status (codes "HTTP/1.0 " ++ digits) r.minor digits
            ≡ response_meaning r body =
          parse_status-text (codes "HTTP/1.0 " ++ digits) r body w (omega (arith, size 9)) in
        rw e (ground (arith, e, p))
