-- ===== src/Http/Request.antt =====
-- `HttpParser::parse` of src/runtime/http_parser.cc.
pub mod Methods
pub mod Laws
pub mod Framing
mod Tests
use route_lang.Common.{
  ℕ, zero, suc, ◌+◌, ◌-◌, ◌<◌, Bool, true, false, ◌&&◌, ◌||◌, not, Option, none, some, List, [],
  ◌∷◌, ◌++◌, ltb, leb, ◌==◌, if◌then◌else◌, length, drop, take, get_or, codes,
}
use route_lang.Tokens.{Str}
use route_lang.Method.{HttpMethod}
use route_lang.Canon.{finalize_path_canonical}
use route_lang.Http.{
  HttpVersion, http10, http11, Header, max_headers, ParsedRequest, empty_request, Parsed, complete,
  incomplete, error,
}
use route_lang.Http.Bytes.{load}
use route_lang.Http.Scan.{UriScan, found_uri, invalid_uri, no_space, scan_uri}
use route_lang.Http.Semantic.{apply_semantic_header}
use route_lang.Http.Block.{maybe_incomplete, parse_headers}

-- `v4 == u32_lit(...)` with the first four bytes of `buf`.
abbrev pub starts : List ℕ → Str → Bool
starts buf lit = load (take 4 buf) == load lit

abbrev pub byte_at : List ℕ → ℕ → ℕ → Bool
byte_at buf i c = get_or buf i 0 == c

-- `parse_method_direct`: the method, and the bytes behind it and its space. `none` is Unknown.
unfoldable pub parse_method_direct : List ℕ → Option (HttpMethod × List ℕ)
unfolding load
parse_method_direct buf =
    if ltb (length buf) 4
    then none
    else if starts buf (codes "GET ")
    then some (HttpMethod.get, drop 4 buf)
    else if starts buf (codes "PUT ")
    then some (HttpMethod.put, drop 4 buf)
    else if ltb (length buf) 5
    then none
    else if starts buf (codes "POST") && byte_at buf 4 b' '
    then some (HttpMethod.post, drop 5 buf)
    else if starts buf (codes "HEAD") && byte_at buf 4 b' '
    then some (HttpMethod.head, drop 5 buf)
    else if ltb (length buf) 6
    then none
    else if starts buf (codes "PATC") && (byte_at buf 4 b'H' && byte_at buf 5 b' ')
    then some (HttpMethod.patch, drop 6 buf)
    else if starts buf (codes "TRAC") && (byte_at buf 4 b'E' && byte_at buf 5 b' ')
    then some (HttpMethod.trace, drop 6 buf)
    else if ltb (length buf) 7
    then none
    else if starts buf (codes "DELE")
        && (byte_at buf 4 b'T' && (byte_at buf 5 b'E' && byte_at buf 6 b' '))
    then some (HttpMethod.delete, drop 7 buf)
    else if ltb (length buf) 8
    then none
    else if starts buf (codes "OPTI") && starts (drop 4 buf) (codes "ONS ")
    then some (HttpMethod.options, drop 8 buf)
    else if starts buf (codes "CONN") && starts (drop 4 buf) (codes "ECT ")
    then some (HttpMethod.connect, drop 8 buf)
    else none

-- `headers[hdr_count] = ...`, then the semantics.
unfoldable pub store_header : Str → Str → ParsedRequest → Option ParsedRequest
store_header name v req =
    if leb max_headers (length req.headers)
    then none
    else apply_semantic_header name v
        (record req { headers = req.headers ++ (record { name = name; value = v } ∷ []) })

-- Behind the headers: Content-Length with chunked is an error.
unfoldable pub check_framing : Parsed ParsedRequest → Parsed ParsedRequest
check_framing (complete req rest) =
    if req.chunked && req.has_content_length then error else complete req rest
check_framing incomplete = incomplete
check_framing error = error

-- The version and its CRLF, then the headers.
unfoldable pub parse_version : List ℕ → ParsedRequest → List ℕ → Parsed ParsedRequest
unfolding load
parse_version buf req pos =
    let version : ℕ = load (take 8 pos) in
    let headers : ParsedRequest → Parsed ParsedRequest =
      λ r. parse_headers store_header buf (length pos) (drop 10 pos) r in
    if ltb (length pos) 10
    then maybe_incomplete buf
    else if not (load (take 2 (drop 8 pos)) == load (codes "\r\n"))
    then error
    else if version == load (codes "HTTP/1.1")
    then headers (record req { version = http11; keep_alive = true })
    else if version == load (codes "HTTP/1.0")
    then headers (record req { version = http10; keep_alive = false })
    else error

-- The canonical path, for a target in origin form only.
unfoldable pub canon_of : Str → Str → Option Str
canon_of uri canon = if get_or uri 0 0 == b'/' then some (finalize_path_canonical canon) else none

-- The target and its space, then the version.
unfoldable pub parse_target : List ℕ → HttpMethod → UriScan → Parsed ParsedRequest
unfolding parse_version canon_of
parse_target buf m invalid_uri = error
parse_target buf m no_space = maybe_incomplete buf
parse_target buf m (found_uri [] canon from) = error
parse_target buf m (found_uri (c ∷ uri) canon from) =
    parse_version buf
      (record empty_request { method = m; path = c ∷ uri; path_canon = canon_of (c ∷ uri) canon })
      (drop 1 from)

unfoldable pub parse_request_line : List ℕ → Option (HttpMethod × List ℕ) → Parsed ParsedRequest
unfolding parse_target
parse_request_line buf none = maybe_incomplete buf
parse_request_line buf (some (m, pos)) = parse_target buf m (scan_uri pos)

-- `HttpParser::parse` up to the end of the loop over the headers, where it completes that loop.
unfoldable pub parse_head : List ℕ → Parsed ParsedRequest
unfolding parse_request_line
parse_head buf =
    if ltb (length buf) 4 then incomplete else parse_request_line buf (parse_method_direct buf)

-- `HttpParser::parse`.
unfoldable pub parse_request : List ℕ → Parsed ParsedRequest
unfolding parse_head check_framing
parse_request buf = check_framing (parse_head buf)

-- Where the loop ended, else the 0 of the entry.
abbrev pub end_of : List ℕ → Parsed ParsedRequest → ℕ
end_of buf (complete req rest) = length buf - length rest
end_of buf incomplete = 0
end_of buf error = 0

-- `header_end` after a call of `parse`. It is set before the check of the framing, so it is not 0
-- where that check is what refuses the request.
unfoldable pub header_end : List ℕ → ℕ
unfolding parse_head
header_end buf = end_of buf (parse_head buf)
