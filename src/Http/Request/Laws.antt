-- ===== src/Http/Request/Laws.antt =====
-- Which bytes `parse_request` takes for a request.
pub mod Sound
pub mod Stable
use route_lang.Common.{
  ℕ, zero, suc, ◌+◌, ◌-◌, ◌≤◌, ◌<◌, ◌≡◌, ◌≢◌, ◌==◌, ◌&&◌, not, refl, ap, sym, subst, ◌∙◌, Bool,
  true, false, List, [], ◌∷◌, ◌++◌, Option, none, some, length, length-append, drop, take, get_or,
  All, arith, inl, inr, Bool-cases, Option-cases, if◌then◌else◌, codes, ltb,
}
use mathlib.Core.List.{append_assoc}
use route_lang.Tokens.{Str}
use route_lang.Method.{HttpMethod}
use route_lang.Canon.{cut_query}
use route_lang.Http.{
  HttpVersion, http10, http11, http_method_str, ParsedRequest, empty_request, Parsed, complete,
  incomplete, error,
}
use route_lang.Http.Bytes.{load}
use route_lang.Http.Bytes.Compare.{IsBytes, IsBytes-drop}
use route_lang.Http.Scan.{UriScan, found_uri, invalid_uri, no_space, scan_uri}
use route_lang.Http.Scan.Found.{IsUri}
use route_lang.Http.Scan.Target.{scan_uri-found, scan_uri-Passed}
use route_lang.Http.Block.{maybe_incomplete, parse_headers}
use route_lang.Http.Block.Grammar.{
  Field, IsField, field_text, block_text, store_all, stored, parse_headers-block,
}
use route_lang.Http.Block.Sound.{Block, parse_headers-Block, maybe_incomplete-ne-complete}
use route_lang.Http.Request.{
  parse_method_direct, store_header, check_framing, parse_version, canon_of, parse_target,
  parse_request_line, parse_head, parse_request,
}
use route_lang.Http.Request.Methods.{
  parse_method_direct-text, parse_method_direct-ReadMethod, load-injective,
}

-- What a request line and its headers say.
pub record Request : Type 0 where
  pub method : HttpMethod
  pub uri : Str
  pub minor : Bool
  pub fields : List Field

pub record IsRequest (r : Request) : Type 0 where
  pub known : r.method ≢ HttpMethod.unknown
  pub target : r.uri ≢ []
  pub plain : IsUri r.uri
  pub valid : All IsField r.fields

abbrev pub version_str : Bool → Str
version_str true = codes "HTTP/1.1\r\n"
version_str false = codes "HTTP/1.0\r\n"

-- The text of a request, with the body behind it.
unfoldable pub request_text : Request → List ℕ → List ℕ
request_text r body =
    http_method_str r.method
    ++ (b' ' ∷ (r.uri ++ (b' ' ∷ (version_str r.minor ++ block_text r.fields body))))

-- What the request line sets. `keep_alive` is the default of the version.
abbrev pub line_of : Request → ParsedRequest
line_of r = record empty_request {
  method = r.method;
  path = r.uri;
  path_canon = canon_of r.uri (cut_query r.uri);
  version = elim r.minor [ true ↦ http11 | false ↦ http10 ];
  keep_alive = r.minor;
}

-- The request line, then the headers one after the other.
unfoldable pub head_meaning : Request → List ℕ → Parsed ParsedRequest
head_meaning r body = stored store_header (store_all store_header r.fields (line_of r)) body

-- Then the check of the framing.
unfoldable pub meaning : Request → List ℕ → Parsed ParsedRequest
unfolding head_meaning
meaning r body = check_framing (head_meaning r body)

pub length-block_text : (fs : List Field) (body : List ℕ) → length fs < length (block_text fs body)
unfolding block_text field_text
length-block_text [] body = omega arith
length-block_text (f ∷ fs) body = omega (
  arith,
  length-append f.name
      (b':' ∷ (f.before ++ ((f.value ++ f.after) ++ (b'\r' ∷ b'\n' ∷ block_text fs body)))),
  length-append f.before ((f.value ++ f.after) ++ (b'\r' ∷ b'\n' ∷ block_text fs body)),
  length-append (f.value ++ f.after) (b'\r' ∷ b'\n' ∷ block_text fs body),
  length-block_text fs body,
)

parse_version-text :
    (buf : List ℕ) (req : ParsedRequest) (minor : Bool) (fs : List Field) (body : List ℕ)
    → All IsField fs
    → parse_version buf req (version_str minor ++ block_text fs body)
      ≡ stored store_header
          (store_all store_header fs (record req {
            version = elim minor [ true ↦ http11 | false ↦ http10 ];
            keep_alive = minor;
          }))
          body
unfolding parse_version load
parse_version-text buf req true fs body h = ground (
  arith,
  parse_headers-block store_header buf fs (10 + length (block_text fs body)) body
      (record req { version = http11; keep_alive = true }) h
      (omega (arith, length-block_text fs body)),
)
parse_version-text buf req false fs body h = ground (
  arith,
  parse_headers-block store_header buf fs (10 + length (block_text fs body)) body
      (record req { version = http10; keep_alive = false }) h
      (omega (arith, length-block_text fs body)),
)

parse_target-text :
    (buf : List ℕ) (r : Request) (body : List ℕ)
    → IsRequest r
    → parse_target buf r.method
        (scan_uri (r.uri ++ (b' ' ∷ (version_str r.minor ++ block_text r.fields body))))
      ≡ head_meaning r body
unfolding parse_target head_meaning
parse_target-text buf r body w =
    ap (parse_target buf r.method)
      (scan_uri-found r.uri (version_str r.minor ++ block_text r.fields body) w.plain)
    ∙ behind r.uri w.target
  where
    behind :
        (uri : Str)
        → uri ≢ []
        → parse_target buf r.method (
            found_uri uri
              (cut_query uri)
              (b' ' ∷ (version_str r.minor ++ block_text r.fields body)))
          ≡ head_meaning (record r { uri = uri }) body
    behind [] ne = absurd (ne refl)
    behind (c ∷ uri) ne =
        parse_version-text buf
          (record empty_request {
            method = r.method;
            path = c ∷ uri;
            path_canon = canon_of (c ∷ uri) (cut_query (c ∷ uri));
          })
          r.minor r.fields body w.valid

length-method : (m : HttpMethod) (rest : List ℕ) → 4 ≤ length (http_method_str m ++ (b' ' ∷ rest))
unfolding http_method_str
length-method HttpMethod.get rest = omega arith
length-method HttpMethod.post rest = omega arith
length-method HttpMethod.put rest = omega arith
length-method HttpMethod.delete rest = omega arith
length-method HttpMethod.patch rest = omega arith
length-method HttpMethod.head rest = omega arith
length-method HttpMethod.options rest = omega arith
length-method HttpMethod.connect rest = omega arith
length-method HttpMethod.trace rest = omega arith
length-method HttpMethod.unknown rest = omega arith

pub parse_head-text :
    (r : Request) (body : List ℕ)
    → IsRequest r
    → parse_head (request_text r body) ≡ head_meaning r body
unfolding parse_head request_text parse_request_line
parse_head-text r body w =
    let rest : List ℕ = r.uri ++ (b' ' ∷ (version_str r.minor ++ block_text r.fields body)) in
    let buf : List ℕ = http_method_str r.method ++ (b' ' ∷ rest) in
    let long : ltb (length buf) 4 ≡ false = ground (arith, length-method r.method rest) in
    rw long (
      ap (parse_request_line buf) (parse_method_direct-text r.method rest w.known)
      ∙ parse_target-text buf r body w)

-- The text of a request, with any body behind it, is parsed to its meaning.
pub parse_request-text :
    (r : Request) (body : List ℕ)
    → IsRequest r
    → parse_request (request_text r body) ≡ meaning r body
unfolding parse_request meaning
parse_request-text r body w = ap check_framing (parse_head-text r body w)
