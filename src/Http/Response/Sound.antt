-- ===== src/Http/Response/Sound.antt =====
-- From the output of HttpResponseParser::parse back to the text of a response.
use route_lang.Common.{
  ℕ, ◌+◌, ◌*◌, ◌/◌, ◌%◌, ◌^◌, ◌≤◌, ◌≡◌, ◌==◌, ◌||◌, refl, ap, ◌∙◌, Bool, true, false, List, [], ◌∷◌,
  ◌++◌, some, length, drop, All, arith, inl, inr, Bool-cases, codes, ltb,
}
use route_lang.Tokens.{Str}
use route_lang.Http.{ParsedResponse, empty_response, complete}
use route_lang.Http.Bytes.{load}
use route_lang.Http.Bytes.Compare.{IsBytes}
use route_lang.Http.Block.Grammar.{Field, IsField, block_text, store_all}
use route_lang.Http.Block.Sound.{Block, parse_headers-Block}
use route_lang.Http.Request.Methods.{load-injective}
use route_lang.Http.Response.{
  store_header_response, scan_cr, parse_status_end, digit, parse_status, parse_response,
}
use route_lang.Http.Response.Laws.{
  Response, IsResponse, prefix_str, response_text, response_meaning, scan_cr_split,
}

-- From the `\r` of the status line on.
parse_status_end-Block :
    (buf p : List ℕ) (resp q : ParsedResponse) (body : List ℕ)
    → p ≡ b'\r' ∷ drop 1 p
    → parse_status_end buf resp p ≡ complete q body
    → (rest : List ℕ) × (p ≡ b'\r' ∷ b'\n' ∷ rest) × Block store_header_response rest resp q body
unfolding parse_status_end
parse_status_end-Block buf [] resp q body h e = absurd (ground arith)
parse_status_end-Block buf (c ∷ []) resp q body h e = absurd (ground arith)
parse_status_end-Block buf (c ∷ d ∷ rest) resp q body h e = elim (Bool-cases (d == b'\n')) [
  | inr other ↦ absurd (ground (arith, other))
  | inl lf ↦ (
    rest,
    ground (arith, h, lf),
    parse_headers-Block store_header_response buf q body (length buf) rest resp (rw lf at e),
  )
]

-- What stands from the status code on.
record Status (keep : Bool) (pos : List ℕ) (q : ParsedResponse) (body : List ℕ) : Type 0 where
  code : ℕ
  reason : Str
  fields : List Field
  low : 100 ≤ code
  high : code ≤ 599
  plain : All (λ c. (c == b'\r') ≡ false) reason
  valid : All IsField fields
  text :
      pos
      ≡ (b'0' + code / 100)
        ∷ (b'0' + code / 10 % 10)
        ∷ (b'0' + code % 10)
        ∷ (reason ++ (b'\r' ∷ b'\n' ∷ block_text fields body))
  all_stored :
      store_all store_header_response fields
        (record empty_response { status_code = code; keep_alive = keep })
      ≡ some q

module _ (buf : List ℕ) (keep : Bool) (q : ParsedResponse) (body : List ℕ) where
  reason-Status :
      (a b c : ℕ) (p : List ℕ) (code : ℕ)
      → a ≡ b'0' + code / 100
      → b ≡ b'0' + code / 10 % 10
      → c ≡ b'0' + code % 10
      → 100 ≤ code
      → code ≤ 599
      → parse_status_end buf
          (record empty_response { status_code = code; keep_alive = keep })
          (scan_cr p)
        ≡ complete q body
      → Status keep (a ∷ b ∷ c ∷ p) q body
  unfolding parse_status_end
  reason-Status a b c p code ea eb ec low high e = elim (scan_cr_split p) [
    | inl nothing ↦ absurd (ground (arith, nothing))
    | inr (reason, t, plain, cr) ↦
        let r : (rest : List ℕ) × (scan_cr p ≡ b'\r' ∷ b'\n' ∷ rest)
            × Block store_header_response rest
                (record empty_response { status_code = code; keep_alive = keep }) q body =
          parse_status_end-Block buf (scan_cr p)
            (record empty_response { status_code = code; keep_alive = keep }) q body cr e in
        record {
          code = code;
          reason = reason;
          fields = r.2.fields;
          low = low;
          high = high;
          plain = plain;
          valid = r.2.valid;
          text = ground (
            arith,
            ea,
            eb,
            ec,
            t ∙ ap (λ x. reason ++ x) r.1 ∙ ap (λ x. reason ++ (b'\r' ∷ b'\n' ∷ x)) r.2.text,
          );
          all_stored = r.2.stored;
        }
  ]

  parse_status-Status :
      (pos : List ℕ)
      → IsBytes pos
      → parse_status buf keep pos ≡ complete q body
      → Status keep pos q body
  unfolding parse_status
  parse_status-Status [] h e = absurd (ground arith)
  parse_status-Status (a ∷ []) h e = absurd (ground arith)
  parse_status-Status (a ∷ b ∷ []) h e = absurd (ground arith)
  parse_status-Status (a ∷ b ∷ c ∷ p) h e =
      elim (Bool-cases (ltb 9 (digit a) || (ltb 9 (digit b) || ltb 9 (digit c)))) [
        | inl other ↦ absurd (ground (arith, other))
        | inr digits ↦ elim (Bool-cases (ltb code 100 || ltb 599 code)) [
          | inl out ↦ absurd (ground (arith, digits, out))
          | inr fits ↦ elim (Bool-cases (length (a ∷ b ∷ c ∷ p) == 3)) [
            | inl short ↦ absurd (ground (arith, digits, fits, short))
            | inr long ↦
                let small : (digit a ≤ 9) × (digit b ≤ 9) × (digit c ≤ 9) =
                  ground (arith, digits) in
                let range : (100 ≤ code) × (code ≤ 599) = ground (arith, fits) in
                let ea : a ≡ b'0' + digit a = omega (arith, h.0) in
                let eb : b ≡ b'0' + digit b = omega (arith, h.1.0) in
                let ec : c ≡ b'0' + digit c = omega (arith, h.1.1.0) in
                reason-Status a b c p code (omega (arith, small)) (omega (arith, small))
                  (omega (arith, small)) range.0 range.1 (ground (arith, digits, fits, long))
          ]
        ]
      ]
    where
      code : ℕ
      code = digit a * 100 + digit b * 10 + digit c

-- A response that was read, with its text.
pub record ReadResponse (buf : List ℕ) (q : ParsedResponse) (body : List ℕ) : Type 0 where
  pub response : Response
  pub valid : IsResponse response
  pub text : buf ≡ response_text response body
  pub means : response_meaning response body ≡ complete q body

Status-ReadResponse :
    (buf pos : List ℕ) (minor : Bool) (q : ParsedResponse) (body : List ℕ)
    → buf ≡ prefix_str minor pos
    → Status minor pos q body
    → ReadResponse buf q body
unfolding response_text response_meaning
Status-ReadResponse buf pos minor q body t s = record {
  response = record { minor = minor; code = s.code; reason = s.reason; fields = s.fields };
  valid = record { low = s.low; high = s.high; plain = s.plain; valid = s.valid };
  text = t ∙ ap (prefix_str minor) s.text;
  means = rw s.all_stored;
}

-- The first seven bytes of a word.
seven_lem :
    (a b c d e f g h : ℕ)
    → IsBytes (a ∷ b ∷ c ∷ d ∷ e ∷ f ∷ g ∷ h ∷ [])
    → (load (a ∷ b ∷ c ∷ d ∷ e ∷ f ∷ g ∷ h ∷ []) % 2 ^ 56 == load (codes "HTTP/1.")) ≡ true
    → a ∷ b ∷ c ∷ d ∷ e ∷ f ∷ g ∷ [] ≡ codes "HTTP/1."
unfolding load
seven_lem a b c d e f g h k q =
    load-injective (a ∷ b ∷ c ∷ d ∷ e ∷ f ∷ g ∷ []) (codes "HTTP/1.") (omega arith) (omega arith)
      refl low
  where
    eq : load (a ∷ b ∷ c ∷ d ∷ e ∷ f ∷ g ∷ h ∷ []) % 2 ^ 56 ≡ load (codes "HTTP/1.")
    eq = ground (arith, q)

    low : load (a ∷ b ∷ c ∷ d ∷ e ∷ f ∷ g ∷ []) ≡ load (codes "HTTP/1.")
    low = omega (arith, eq)

-- A buffer of bytes that `parse_response` completes is the text of a response with the body behind
-- it, and the output is the meaning of that response.
pub parse_response-ReadResponse :
    (buf : List ℕ) (q : ParsedResponse) (body : List ℕ)
    → IsBytes buf
    → parse_response buf ≡ complete q body
    → ReadResponse buf q body
unfolding parse_response
parse_response-ReadResponse [] q body k x = absurd (ground arith)
parse_response-ReadResponse (a ∷ []) q body k x = absurd (ground arith)
parse_response-ReadResponse (a ∷ b ∷ []) q body k x = absurd (ground arith)
parse_response-ReadResponse (a ∷ b ∷ c ∷ []) q body k x = absurd (ground arith)
parse_response-ReadResponse (a ∷ b ∷ c ∷ d ∷ []) q body k x = absurd (ground arith)
parse_response-ReadResponse (a ∷ b ∷ c ∷ d ∷ e ∷ []) q body k x = absurd (ground arith)
parse_response-ReadResponse (a ∷ b ∷ c ∷ d ∷ e ∷ f ∷ []) q body k x = absurd (ground arith)
parse_response-ReadResponse (a ∷ b ∷ c ∷ d ∷ e ∷ f ∷ g ∷ []) q body k x = absurd (ground arith)
parse_response-ReadResponse (a ∷ b ∷ c ∷ d ∷ e ∷ f ∷ g ∷ h ∷ []) q body k x = absurd (ground arith)
parse_response-ReadResponse (a ∷ b ∷ c ∷ d ∷ e ∷ f ∷ g ∷ h ∷ i ∷ pos) q body k x =
    elim (Bool-cases (ltb (length pos) 3)) [
      | inl short ↦ absurd (ground (arith, short))
      | inr long ↦
          elim (Bool-cases
            (load (a ∷ b ∷ c ∷ d ∷ e ∷ f ∷ g ∷ h ∷ []) % 2 ^ 56 == load (codes "HTTP/1."))) [
              | inr other ↦ absurd (ground (arith, long, other))
              | inl version ↦ elim (Bool-cases (i == b' ')) [
                | inr no_space ↦ absurd (ground (arith, long, version, no_space))
                | inl space ↦ elim (Bool-cases (h == b'1')) [
                  | inl one ↦
                      Status-ReadResponse (a ∷ b ∷ c ∷ d ∷ e ∷ f ∷ g ∷ h ∷ i ∷ pos) pos true q body
                        (ground (arith, start version, one, space))
                        (parse_status-Status (a ∷ b ∷ c ∷ d ∷ e ∷ f ∷ g ∷ h ∷ i ∷ pos) true q body
                          pos rest (ground (arith, long, version, one, space)))
                  | inr not_one ↦ elim (Bool-cases (h == b'0')) [
                    | inl nought ↦
                        Status-ReadResponse (a ∷ b ∷ c ∷ d ∷ e ∷ f ∷ g ∷ h ∷ i ∷ pos) pos false q
                          body (ground (arith, start version, nought, space))
                          (parse_status-Status (a ∷ b ∷ c ∷ d ∷ e ∷ f ∷ g ∷ h ∷ i ∷ pos) false q
                            body pos rest (ground (arith, long, version, not_one, nought, space)))
                    | inr neither ↦ absurd (ground (arith, long, version, not_one, neither))
                  ]
                ]
              ]
            ]
    ]
  where
    rest : IsBytes pos
    rest = k.1.1.1.1.1.1.1.1.1

    start :
        (load (a ∷ b ∷ c ∷ d ∷ e ∷ f ∷ g ∷ h ∷ []) % 2 ^ 56 == load (codes "HTTP/1.")) ≡ true
        → a ∷ b ∷ c ∷ d ∷ e ∷ f ∷ g ∷ [] ≡ codes "HTTP/1."
    start v = seven_lem a b c d e f g h (omega arith) v
