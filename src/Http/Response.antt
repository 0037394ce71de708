-- ===== src/Http/Response.antt =====
-- `HttpResponseParser::parse` of src/runtime/http_parser.cc.
pub mod Laws
pub mod Sound
mod Tests
use route_lang.Common.{
  ℕ, zero, suc, ◌+◌, ◌-◌, ◌*◌, ◌%◌, ◌^◌, ◌<◌, Bool, true, false, ◌&&◌, ◌||◌, not, Option, none,
  some, List, [], ◌∷◌, ◌++◌, ltb, leb, ◌==◌, if◌then◌else◌, length, drop, take, get_or, codes,
}
use route_lang.Tokens.{Str}
use route_lang.Http.{
  Header, max_headers, ParsedResponse, empty_response, Parsed, complete, incomplete, error,
}
use route_lang.Http.Bytes.{load}
use route_lang.Http.Semantic.{apply_semantic_header_response}
use route_lang.Http.Block.{parse_headers}

-- Beyond the capacity a header is not stored; its semantics are applied all the same.
unfoldable pub store_header_response : Str → Str → ParsedResponse → Option ParsedResponse
store_header_response name v resp = apply_semantic_header_response name v (
    if ltb (length resp.headers) max_headers
    then record resp { headers = resp.headers ++ (record { name = name; value = v } ∷ []) }
    else resp)

-- The reason phrase, from the `\r` on.
unfoldable pub scan_cr : List ℕ → List ℕ
scan_cr [] = []
scan_cr (c ∷ rest) = if c == b'\r' then c ∷ rest else scan_cr rest

-- From the `\r` on: `\n`, then the headers.
unfoldable pub parse_status_end : List ℕ → ParsedResponse → List ℕ → Parsed ParsedResponse
parse_status_end buf resp [] = incomplete
parse_status_end buf resp (c ∷ []) = incomplete
parse_status_end buf resp (c ∷ d ∷ rest) =
    if d == b'\n' then parse_headers store_header_response buf (length buf) rest resp else error

-- `buf[pos] - '0'` on u32.
abbrev pub digit : ℕ → ℕ
digit c = (c + 2 ^ 32 - b'0') % 2 ^ 32

-- The status code and the reason, from the first digit on.
unfoldable pub parse_status : List ℕ → Bool → List ℕ → Parsed ParsedResponse
unfolding parse_status_end scan_cr
parse_status buf keep pos =
    let d0 : ℕ = digit (get_or pos 0 0) in
    let d1 : ℕ = digit (get_or pos 1 0) in
    let d2 : ℕ = digit (get_or pos 2 0) in
    let code : ℕ = d0 * 100 + d1 * 10 + d2 in
    if ltb (length pos) 3
    then incomplete
    else if ltb 9 d0 || (ltb 9 d1 || ltb 9 d2)
    then error
    else if ltb code 100 || ltb 599 code
    then error
    else if length pos == 3
    then incomplete
    else parse_status_end buf (record empty_response { status_code = code; keep_alive = keep })
        (scan_cr (drop 3 pos))

-- The version is checked by its first seven bytes, the low ones of the word.
unfoldable pub parse_response : List ℕ → Parsed ParsedResponse
unfolding load parse_status
parse_response buf =
    let digit1 : ℕ = get_or buf 7 0 in
    let keep : Bool = digit1 == b'1' in
    if ltb (length buf) 12
    then incomplete
    else if not (load (take 8 buf) % 2 ^ 56 == load (codes "HTTP/1."))
    then error
    else if not (keep || digit1 == b'0')
    then error
    else if not (get_or buf 8 0 == b' ')
    then error
    else parse_status buf keep (drop 9 buf)
