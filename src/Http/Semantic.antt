-- ===== src/Http/Semantic.antt =====
-- The headers that src/runtime/http_parser.cc reads: Connection, Content-Length and
-- Transfer-Encoding.
pub mod Lists
use route_lang.Common.{
  ℕ, zero, suc, ◌+◌, ◌-◌, ◌<◌, bit_or, Bool, true, false, ◌&&◌, ◌||◌, not, Option, none, some, List,
  [], ◌∷◌, ◌++◌, ltb, leb, ◌==◌, if◌then◌else◌, length, drop, get_or, codes,
}
use route_lang.Tokens.{Str}
use route_lang.Http.{ParsedRequest, ParsedResponse}
use route_lang.Http.Bytes.{str_ci_eq, Uint, value, einval, erange, parse_uint}

abbrev pub is_separator : ℕ → Bool
is_separator c = c == b' ' || c == b'\t' || c == b','

-- The inner loop over spaces, tabs and commas.
pub skip_separators : Str → Str
skip_separators [] = []
skip_separators (c ∷ v) = if is_separator c then skip_separators v else c ∷ v

-- The inner loop to the end of the token: the token, and the bytes behind it.
pub take_token : Str → Str × Str
take_token [] = ([], [])
take_token (c ∷ v) =
    let (token, after) = take_token v in if is_separator c then ([], c ∷ v) else (c ∷ token, after)

-- `tok_len == n && str_ci_eq(val + tok_start, text, n)`.
unfoldable pub is_text : Str → Str → Bool
is_text token text = length token == length text && str_ci_eq token text (length text)

-- `keep_alive` and `connection_close`.
abbrev pub Keep : Type 0
Keep = Bool × Bool

-- The loop of `match_connection_response`. A round reads a token, so the length of the value is
-- fuel enough.
pub connection_loop : ℕ → Str → Keep → Keep
unfolding skip_separators take_token is_text
connection_loop zero v k = k
connection_loop (suc fuel) v k = elim (skip_separators v) [
  | [] ↦ k
  | c ∷ rest ↦
      let token : Str = (take_token (c ∷ rest)).0 in
      elim (is_text token (codes "close")) [
        | true ↦ (false, true)
        | false ↦
            connection_loop fuel (take_token (c ∷ rest)).1
              (if is_text token (codes "keep-alive") then (true, k.1) else k)
      ]
]

unfoldable pub match_connection_response : Str → Keep → Keep
unfolding connection_loop
match_connection_response v k = connection_loop (length v) v k

-- `match_connection` is the same loop without `connection_close`.
unfoldable pub match_connection : Str → Bool → Bool
unfolding connection_loop
match_connection v keep_alive = (connection_loop (length v) v (keep_alive, false)).0

-- The loop over the tokens of Transfer-Encoding: whether it sets `chunked`.
pub chunked_loop : ℕ → Str → Bool
unfolding skip_separators take_token is_text
chunked_loop zero v = false
chunked_loop (suc fuel) v = elim (skip_separators v) [
  | [] ↦ false
  | c ∷ rest ↦ elim (is_text (take_token (c ∷ rest)).0 (codes "chunked")) [
    | true ↦ true
    | false ↦ chunked_loop fuel (take_token (c ∷ rest)).1
  ]
]

unfoldable pub names_chunked : Str → Bool
unfolding chunked_loop
names_chunked v = chunked_loop (length v) v

-- Which header a name is: the dispatch on the first byte and the length.
pub data Semantic : Type 0 where
  content_length connection transfer_encoding other : Semantic

unfoldable pub semantic : Str → Semantic
semantic name =
    let first : ℕ = bit_or (get_or name 0 0) 0x20 in
    if first == b'c'
    then if length name == 14 && str_ci_eq (drop 1 name) (codes "ontent-length") 13
      then content_length
      else if length name == 10 && str_ci_eq (drop 1 name) (codes "onnection") 9
      then connection
      else other
    else if first == b't'
    then if length name == 17 && str_ci_eq (drop 1 name) (codes "ransfer-encoding") 16
      then transfer_encoding
      else other
    else other

-- Content-Length: a second one has to be equal to the first.
unfoldable pub set_content_length : Uint → ParsedRequest → Option ParsedRequest
set_content_length (value n) req =
    if req.has_content_length
    then if req.content_length == n then some req else none
    else some (record req { content_length = n; has_content_length = true })
set_content_length einval req = none
set_content_length erange req = none

-- `none` is the status Error.
unfoldable pub apply_semantic : Semantic → Str → ParsedRequest → Option ParsedRequest
unfolding set_content_length
apply_semantic content_length v req = set_content_length (parse_uint v) req
apply_semantic connection v req =
    some (record req { keep_alive = match_connection v req.keep_alive })
apply_semantic transfer_encoding v req =
    some (record req { chunked = req.chunked || names_chunked v })
apply_semantic other v req = some req

unfoldable pub apply_semantic_header : Str → Str → ParsedRequest → Option ParsedRequest
unfolding apply_semantic
apply_semantic_header name v req = apply_semantic (semantic name) v req

unfoldable pub set_content_length_response : Uint → ParsedResponse → Option ParsedResponse
set_content_length_response (value n) resp =
    if resp.has_content_length
    then if resp.content_length == n then some resp else none
    else some (record resp { content_length = n; has_content_length = true })
set_content_length_response einval resp = none
set_content_length_response erange resp = none

unfoldable pub apply_semantic_response : Semantic → Str → ParsedResponse → Option ParsedResponse
unfolding set_content_length_response
apply_semantic_response content_length v resp = set_content_length_response (parse_uint v) resp
apply_semantic_response connection v resp =
    let k : Keep = match_connection_response v (resp.keep_alive, resp.connection_close) in
    some (record resp { keep_alive = k.0; connection_close = k.1 })
apply_semantic_response transfer_encoding v resp =
    some (record resp { chunked = resp.chunked || names_chunked v })
apply_semantic_response other v resp = some resp

unfoldable pub apply_semantic_header_response : Str → Str → ParsedResponse → Option ParsedResponse
unfolding apply_semantic_response
apply_semantic_header_response name v resp = apply_semantic_response (semantic name) v resp
