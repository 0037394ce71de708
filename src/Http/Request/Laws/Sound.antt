-- ===== src/Http/Request/Laws/Sound.antt =====
-- From the output of HttpParser::parse back to the text of a request.
use route_lang.Common.{
  ℕ, zero, suc, ◌≤◌, ◌≡◌, ◌≢◌, ◌==◌, ◌&&◌, refl, ap, sym, subst, ◌∙◌, Bool, true, false, List, [],
  ◌∷◌, ◌++◌, length, length-take, length-drop, drop-drop, take-append-drop, drop, take, All, arith,
  inl, inr, Bool-cases, Option-cases, codes, ltb,
}
use mathlib.Core.List.{append_assoc}
use route_lang.Method.{HttpMethod}
use route_lang.Canon.{cut_query}
use route_lang.Http.{
  http10, http11, http_method_str, ParsedRequest, empty_request, Parsed, complete, incomplete,
  error,
}
use route_lang.Http.Bytes.{load}
use route_lang.Http.Bytes.Compare.{IsBytes, IsBytes-drop}
use route_lang.Http.Scan.{UriScan, found_uri, invalid_uri, no_space, scan_uri}
use route_lang.Http.Scan.Found.{IsUri}
use route_lang.Http.Scan.Target.{scan_uri-Passed}
use route_lang.Http.Block.{parse_headers}
use route_lang.Http.Block.Grammar.{Field, IsField, block_text, store_all, stored}
use route_lang.Http.Block.Sound.{Block, parse_headers-Block, maybe_incomplete-ne-complete}
use route_lang.Http.Request.{
  parse_method_direct, store_header, check_framing, parse_version, canon_of, parse_target,
  parse_request_line, parse_head, parse_request,
}
use route_lang.Http.Request.Methods.{parse_method_direct-ReadMethod, load-injective}
use route_lang.Http.Request.Laws.{
  Request, IsRequest, version_str, request_text, head_meaning, meaning,
}

IsBytes-take : (k : ℕ) (a : List ℕ) → IsBytes a → IsBytes (take k a)
IsBytes-take zero a h = tt
IsBytes-take (suc k) [] h = tt
IsBytes-take (suc k) (x ∷ a) h = (h.0, IsBytes-take k a h.1)

IsBytes-right : (a b : List ℕ) → IsBytes (a ++ b) → IsBytes b
IsBytes-right [] b h = h
IsBytes-right (x ∷ a) b h = IsBytes-right a b h.1

-- The first `k` bytes are a word exactly if the loads agree.
word_at :
    (k : ℕ) (pos lit : List ℕ)
    → IsBytes pos
    → IsBytes lit
    → length lit ≡ k
    → k ≤ length pos
    → (load (take k pos) == load lit) ≡ true
    → pos ≡ lit ++ drop k pos
word_at k pos lit h b n le e =
    let same : take k pos ≡ lit =
      load-injective (take k pos) lit (IsBytes-take k pos h) b (omega (arith, length-take k pos))
        (ground (arith, e)) in
    sym (take-append-drop k pos) ∙ ap (λ x. x ++ drop k pos) same

pub check_framing-complete :
    (x : Parsed ParsedRequest) (q : ParsedRequest) (body : List ℕ)
    → check_framing x ≡ complete q body
    → (x ≡ complete q body) × ((q.chunked && q.has_content_length) ≡ false)
unfolding check_framing
check_framing-complete (complete p rest) q body e =
    elim (Bool-cases (p.chunked && p.has_content_length)) [
      | inl both ↦ absurd (ground (arith, both))
      | inr fine ↦
          let same : p ≡ q = ground (arith, fine) in
          (ground (arith, fine), subst (λ x. (x.chunked && x.has_content_length) ≡ false) same fine)
    ]
check_framing-complete incomplete q body e = absurd (ground arith)
check_framing-complete error q body e = absurd (ground arith)

-- What stands behind the target.
record Versioned (pos : List ℕ) (req q : ParsedRequest) (body : List ℕ) : Type 0 where
  minor : Bool
  fields : List Field
  valid : All IsField fields
  text : pos ≡ version_str minor ++ block_text fields body
  stored_all :
      stored store_header
        (store_all store_header fields (record req {
          version = elim minor [ true ↦ http11 | false ↦ http10 ];
          keep_alive = minor;
        }))
        body
      ≡ complete q body

headers-Versioned :
    (buf pos : List ℕ) (minor : Bool) (req q : ParsedRequest) (body : List ℕ)
    → pos ≡ version_str minor ++ drop 10 pos
    → parse_headers store_header buf
        (length pos)
        (drop 10 pos)
        (record req { version = elim minor [ true ↦ http11 | false ↦ http10 ]; keep_alive = minor })
      ≡ complete q body
    → Versioned pos req q body
headers-Versioned buf pos minor req q body t e =
    let start : ParsedRequest = record req {
      version = elim minor [ true ↦ http11 | false ↦ http10 ];
      keep_alive = minor;
    } in
    let b : Block store_header (drop 10 pos) start q body =
      parse_headers-Block store_header buf q body (length pos) (drop 10 pos) start e in
    record {
      minor = minor;
      fields = b.fields;
      valid = b.valid;
      text = t ∙ ap (λ x. version_str minor ++ x) b.text;
      stored_all = rw b.stored;
    }

parse_version-Versioned :
    (buf pos : List ℕ) (req q : ParsedRequest) (body : List ℕ)
    → IsBytes pos
    → parse_version buf req pos ≡ complete q body
    → Versioned pos req q body
unfolding parse_version
parse_version-Versioned buf pos req q body h e = elim (Bool-cases (ltb (length pos) 10)) [
  | inl short ↦ absurd (maybe_incomplete-ne-complete buf q body (rw short at e))
  | inr long ↦ elim (Bool-cases (load (take 2 (drop 8 pos)) == load (codes "\r\n"))) [
    | inr other ↦ absurd (ground (arith, long, other))
    | inl crlf ↦
        let behind : drop 8 pos ≡ codes "\r\n" ++ drop 10 pos =
          word_at 2 (drop 8 pos) (codes "\r\n") (IsBytes-drop 8 pos h) (omega arith) refl
            (omega (arith, length-drop 8 pos, size long)) crlf
          ∙ ap (λ x. codes "\r\n" ++ x) (drop-drop 2 8 pos) in
        elim (Bool-cases (load (take 8 pos) == load (codes "HTTP/1.1"))) [
          | inl new ↦
              headers-Versioned buf pos true req q body
                (word_at 8 pos (codes "HTTP/1.1") h (omega arith) refl (omega (arith, size long))
                    new
                  ∙ ap (λ x. codes "HTTP/1.1" ++ x) behind)
                (rw (long, crlf, new) at e)
          | inr not_new ↦ elim (Bool-cases (load (take 8 pos) == load (codes "HTTP/1.0"))) [
            | inl old ↦
                headers-Versioned buf pos false req q body
                  (word_at 8 pos (codes "HTTP/1.0") h (omega arith) refl (omega (arith, size long))
                      old
                    ∙ ap (λ x. codes "HTTP/1.0" ++ x) behind)
                  (rw (long, crlf, not_new, old) at e)
            | inr not_old ↦ absurd (ground (arith, long, crlf, not_new, not_old))
          ]
        ]
  ]
]
  where
    size : ltb (length pos) 10 ≡ false → 10 ≤ length pos
    size long = ground (arith, long)

-- A request whose header loop was completed, with its text.
pub record ReadHead (buf : List ℕ) (q : ParsedRequest) (body : List ℕ) : Type 0 where
  pub request : Request
  pub valid : IsRequest request
  pub text : buf ≡ request_text request body
  pub means : head_meaning request body ≡ complete q body

-- A request that was read, with its text.
pub record ReadRequest (buf : List ℕ) (q : ParsedRequest) (body : List ℕ) : Type 0 where
  pub request : Request
  pub valid : IsRequest request
  pub text : buf ≡ request_text request body
  pub means : meaning request body ≡ complete q body

parse_target-ReadHead :
    (buf pos : List ℕ) (m : HttpMethod) (s : UriScan) (q : ParsedRequest) (body : List ℕ)
    → IsBytes pos
    → m ≢ HttpMethod.unknown
    → buf ≡ http_method_str m ++ (b' ' ∷ pos)
    → scan_uri pos ≡ s
    → parse_target buf m s ≡ complete q body
    → ReadHead buf q body
unfolding parse_target request_text head_meaning
parse_target-ReadHead buf pos m invalid_uri q body h k t sc e = absurd (ground arith)
parse_target-ReadHead buf pos m no_space q body h k t sc e =
    absurd (maybe_incomplete-ne-complete buf q body e)
parse_target-ReadHead buf pos m (found_uri [] canon from) q body h k t sc e = absurd (ground arith)
parse_target-ReadHead buf pos m (found_uri (c ∷ uri) canon from) q body h k t sc e =
    let p : (pos ≡ (c ∷ uri) ++ from)
        × IsUri (c ∷ uri)
        × (canon ≡ cut_query (c ∷ uri))
        × (from ≡ b' ' ∷ drop 1 from) =
      scan_uri-Passed pos (c ∷ uri) canon from sc in
    let bytes : IsBytes (drop 1 from) =
      IsBytes-drop 1 from (IsBytes-right (c ∷ uri) from (rw p.0 at h)) in
    let start : ParsedRequest = record empty_request {
      method = m;
      path = c ∷ uri;
      path_canon = canon_of (c ∷ uri) (cut_query (c ∷ uri));
    } in
    let v : Versioned (drop 1 from) start q body =
      parse_version-Versioned buf (drop 1 from) start q body bytes (rw p.2 at e) in
    record {
      request = record { method = m; uri = c ∷ uri; minor = v.minor; fields = v.fields };
      valid = record { known = k; target = λ x. cc; plain = p.1; valid = v.valid };
      text =
          t
          ∙ ap (λ x. http_method_str m ++ (b' ' ∷ x)) p.0
          ∙ ap (λ x. http_method_str m ++ (b' ' ∷ ((c ∷ uri) ++ x))) p.3
          ∙ ap (λ x. http_method_str m ++ (b' ' ∷ ((c ∷ uri) ++ (b' ' ∷ x)))) v.text;
      means = v.stored_all;
    }

pub parse_head-ReadHead :
    (buf : List ℕ) (q : ParsedRequest) (body : List ℕ)
    → IsBytes buf
    → parse_head buf ≡ complete q body
    → ReadHead buf q body
unfolding parse_head parse_request_line
parse_head-ReadHead buf q body h e = elim (Bool-cases (ltb (length buf) 4)) [
  | inl short ↦ absurd (ground (arith, short))
  | inr long ↦ elim (Option-cases (parse_method_direct buf)) [
    | inl unknown_method ↦
        absurd (maybe_incomplete-ne-complete buf q body (rw (long, unknown_method) at e))
    | inr (r, found_method) ↦
        let m : (r.0 ≢ HttpMethod.unknown) × (buf ≡ http_method_str r.0 ++ (b' ' ∷ r.1)) =
          parse_method_direct-ReadMethod buf r.0 r.1 h found_method in
        parse_target-ReadHead buf r.1 r.0 (scan_uri r.1) q body
          (IsBytes-right (http_method_str r.0 ++ (b' ' ∷ [])) r.1
            (rw (m.1 ∙ sym (append_assoc (http_method_str r.0) (b' ' ∷ []) r.1)) at h))
          m.0 m.1 refl (rw (long, found_method) at e)
  ]
]

-- A buffer of bytes that `parse_request` completes is the text of a request with the body behind
-- it, and the output is the meaning of that request.
pub parse_request-ReadRequest :
    (buf : List ℕ) (q : ParsedRequest) (body : List ℕ)
    → IsBytes buf
    → parse_request buf ≡ complete q body
    → ReadRequest buf q body
unfolding parse_request meaning
parse_request-ReadRequest buf q body h e =
    let c : (parse_head buf ≡ complete q body) × ((q.chunked && q.has_content_length) ≡ false) =
      check_framing-complete (parse_head buf) q body e in
    let r : ReadHead buf q body = parse_head-ReadHead buf q body h c.0 in
    record {
      request = r.request;
      valid = r.valid;
      text = r.text;
      means = ap check_framing r.means ∙ (unfold check_framing in rw c.1);
    }
