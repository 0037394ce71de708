-- ===== src/Lexer.antt =====
-- The lexer of the language, src/compiler/lexer.cc. The tokens and diagnostics are those of
-- `Frontend`, passed on.
mod Frontend
mod Tests
pub mod Position
pub mod Rounds
pub mod Placed
pub mod Runs
pub mod Print
pub mod RoundTrip
use route_lang.Common.{
  ℕ, zero, suc, ◌+◌, ◌-◌, ◌<◌, Bool, true, false, ◌&&◌, ◌||◌, not, Option, none, some, List, [],
  ◌∷◌, ◌++◌, ltb, leb, ◌==◌, if◌then◌else◌, length, drop, take, get_or, codes,
}
use route_lang.Tokens.{Str}
use route_lang.Trie.{str_eq}
pub use Frontend.*

unfoldable pub is_space : ℕ → Bool
is_space c = c == b' ' || (c == b'\t' || (c == b'\r' || c == b'\n'))

unfoldable pub is_digit : ℕ → Bool
is_digit c = leb b'0' c && leb c b'9'

unfoldable pub is_ident_start : ℕ → Bool
is_ident_start c = (leb b'a' c && leb c b'z') || ((leb b'A' c && leb c b'Z') || c == b'_')

unfoldable pub is_ident_continue : ℕ → Bool
unfolding is_ident_start is_digit
is_ident_continue c = is_ident_start c || is_digit c

-- The texts that `keyword_type` compares with, in its order.
abbrev keywords : List (Str × TokenType)
keywords =
    (codes "func", kw_func)
    ∷ (codes "let", kw_let)
    ∷ (codes "const", kw_const)
    ∷ (codes "guard", kw_guard)
    ∷ (codes "case", kw_case)
    ∷ (codes "error", kw_error)
    ∷ (codes "protocol", kw_protocol)
    ∷ (codes "impl", kw_impl)
    ∷ (codes "import", kw_import)
    ∷ (codes "package", kw_package)
    ∷ (codes "using", kw_using)
    ∷ (codes "as", kw_as)
    ∷ (codes "where", kw_where)
    ∷ (codes "variant", kw_variant)
    ∷ (codes "struct", kw_struct)
    ∷ (codes "match", kw_match)
    ∷ (codes "if", kw_if)
    ∷ (codes "else", kw_else)
    ∷ (codes "for", kw_for)
    ∷ (codes "in", kw_in)
    ∷ (codes "or", kw_or)
    ∷ (codes "nil", kw_nil)
    ∷ (codes "upstream", kw_upstream)
    ∷ (codes "downstream", kw_downstream)
    ∷ (codes "route", kw_route)
    ∷ (codes "return", kw_return)
    ∷ (codes "forward", kw_forward)
    ∷ (codes "wait", kw_wait)
    ∷ (codes "true", kw_true)
    ∷ (codes "false", kw_false)
    ∷ (codes "GET", kw_get)
    ∷ (codes "get", kw_get)
    ∷ (codes "POST", kw_post)
    ∷ (codes "post", kw_post)
    ∷ (codes "PUT", kw_put)
    ∷ (codes "put", kw_put)
    ∷ (codes "DELETE", kw_delete)
    ∷ (codes "delete", kw_delete)
    ∷ (codes "PATCH", kw_patch)
    ∷ (codes "patch", kw_patch)
    ∷ (codes "HEAD", kw_head)
    ∷ (codes "head", kw_head)
    ∷ (codes "OPTIONS", kw_options)
    ∷ (codes "options", kw_options)
    ∷ []

-- The first that is equal.
unfoldable pub keyword_among : List (Str × TokenType) → Str → TokenType
keyword_among [] text = ident
keyword_among ((word, type) ∷ more) text =
    if str_eq text word then type else keyword_among more text

unfoldable pub keyword_type : Str → TokenType
unfolding keyword_among
keyword_type text = keyword_among keywords text

unfoldable pub token_span : Token → Span
token_span tok = record { start = tok.start; end = tok.end; line = tok.line; col = tok.col }

-- `pos`, `line` and `col` of the loop, with the bytes from `pos` on.
pub record Cursor : Type 0 where
  pub pos : ℕ
  pub line : ℕ
  pub col : ℕ
  pub rest : Str

-- `pos += n; col += n`.
unfoldable pub forward : ℕ → Cursor → Cursor
forward n cur = record cur { pos = cur.pos + n; col = cur.col + n; rest = drop n cur.rest }

unfoldable pub new_line : Cursor → Cursor
new_line cur = record { pos = cur.pos + 1; line = cur.line + 1; col = 1; rest = drop 1 cur.rest }

-- How many bytes an inner loop passes.
unfoldable pub run : (ℕ → Bool) → Str → ℕ
run test [] = 0
run test (c ∷ rest) = let more = run test rest in if test c then suc more else 0

-- One round of the loop.
pub data Round : Type 0 where
  skip : Cursor → Round
  emit : Token → Cursor → Round
  fail : Diagnostic → Round

-- A token of the next `n` bytes.
unfoldable pub token : ℕ → TokenType → Cursor → Round
unfolding forward
token n type cur =
    emit
      (record {
        type = type;
        text = take n cur.rest;
        start = cur.pos;
        end = cur.pos + n;
        line = cur.line;
        col = cur.col;
      })
      (forward n cur)

-- The loop over the inside of a literal: how many bytes it passes, and if it ends at a quote.
pub data Quoted : Type 0 where
  closed unterminated : ℕ → Quoted

abbrev pub passed : ℕ → Quoted → Quoted
passed n (closed k) = closed (n + k)
passed n (unterminated k) = unterminated (n + k)

unfoldable pub scan_quoted : Str → Quoted
scan_quoted [] = unterminated 0
scan_quoted (c ∷ []) =
    if c == b'"'
    then closed 0
    else if c == b'\\' || c == b'\n'
    then unterminated 0
    else unterminated 1
scan_quoted (c ∷ d ∷ rest) =
    let one = scan_quoted (d ∷ rest) in
    let two = scan_quoted rest in
    if c == b'"'
    then closed 0
    else if c == b'\\'
    then passed 2 two
    else if c == b'\n'
    then unterminated 0
    else passed 1 one

-- A literal whose inside begins behind `k` bytes, for `re"` three and for `"` one.
unfoldable pub end_quoted : ℕ → TokenType → Cursor → Quoted → Round
unfolding forward
end_quoted k type cur (closed n) =
    emit
      (record {
        type = type;
        text = take n (drop k cur.rest);
        start = cur.pos + k;
        end = cur.pos + k + n;
        line = cur.line;
        col = cur.col + k;
      })
      (forward (k + n + 1) cur)
end_quoted k type cur (unterminated n) = fail (record {
  code = unterminated_string;
  span = record { start = cur.pos; end = cur.pos + k + n; line = cur.line; col = cur.col };
  detail = [];
})

unfoldable pub quoted : ℕ → TokenType → Cursor → Round
unfolding scan_quoted end_quoted
quoted k type cur = end_quoted k type cur (scan_quoted (drop k cur.rest))

unfoldable pub word : Cursor → Round
unfolding token run keyword_type is_ident_continue
word cur =
    let n : ℕ = 1 + run is_ident_continue (drop 1 cur.rest) in
    let text : Str = take n cur.rest in
    token n (if length text == 1 && get_or text 0 0 == b'_' then underscore else keyword_type text)
      cur

-- The bytes of a duration's unit, which has to end where an identifier could not go on.
unfoldable pub unit_length : Str → ℕ
unfolding is_ident_continue
unit_length behind =
    let c : ℕ = get_or behind 0 0 in
    if c == b'm' && (get_or behind 1 0 == b's' && not (is_ident_continue (get_or behind 2 0)))
    then 2
    else if not (is_ident_continue (get_or behind 1 0)) && (c == b's' || (c == b'm' || c == b'h'))
    then 1
    else 0

unfoldable pub number : Cursor → Round
unfolding token run unit_length is_digit
number cur =
    let n : ℕ = 1 + run is_digit (drop 1 cur.rest) in
    let unit : ℕ = unit_length (drop n cur.rest) in
    token (n + unit) (if unit == 0 then int_lit else dur_lit) cur

-- The `switch`.
abbrev pub symbols : List (ℕ × TokenType)
symbols =
    (b'{', l_brace)
    ∷ (b'}', r_brace)
    ∷ (b'(', l_paren)
    ∷ (b')', r_paren)
    ∷ (b'[', l_bracket)
    ∷ (b']', r_bracket)
    ∷ (b',', comma)
    ∷ (b':', colon)
    ∷ (b'.', dot)
    ∷ (b'<', lt)
    ∷ (b'>', gt)
    ∷ (b'*', star)
    ∷ (b'|', pipe)
    ∷ (b'=', eq)
    ∷ (b'@', at)
    ∷ []

unfoldable pub symbol_among : List (ℕ × TokenType) → ℕ → Option TokenType
symbol_among [] c = none
symbol_among ((d, type) ∷ more) c = if c == d then some type else symbol_among more c

unfoldable pub symbol_type : ℕ → Option TokenType
unfolding symbol_among
symbol_type c = symbol_among symbols c

unfoldable pub single : Cursor → Option TokenType → Round
unfolding token
single cur (some type) = token 1 type cur
single cur none = fail (record {
  code = unexpected_char;
  span = record { start = cur.pos; end = cur.pos + 1; line = cur.line; col = cur.col };
  detail = take 1 cur.rest;
})

unfoldable pub symbol : Cursor → Round
unfolding token single symbol_type
symbol cur =
    let c : ℕ = get_or cur.rest 0 0 in
    let d : ℕ = get_or cur.rest 1 0 in
    if c == b'=' && d == b'='
    then token 2 eq_eq cur
    else if c == b'=' && d == b'>'
    then token 2 arrow cur
    else if c == b'-' && d == b'>'
    then token 2 thin_arrow cur
    else single cur (symbol_type c)

abbrev pub not_newline : ℕ → Bool
not_newline c = not (c == b'\n')

-- A round, before the end of the source.
unfoldable pub round : Cursor → Round
unfolding is_space new_line forward run quoted is_ident_start word is_digit number symbol
round cur =
    let c : ℕ = get_or cur.rest 0 0 in
    let d : ℕ = get_or cur.rest 1 0 in
    if is_space c
    then skip (if c == b'\n' then new_line cur else forward 1 cur)
    else if c == b'/' && d == b'/'
    then skip (forward (2 + run not_newline (drop 2 cur.rest)) cur)
    else if c == b'r' && (d == b'e' && get_or cur.rest 2 0 == b'"')
    then quoted 3 regex_lit cur
    else if is_ident_start c
    then word cur
    else if is_digit c
    then number cur
    else if c == b'"'
    then quoted 1 string_lit cur
    else symbol cur

-- `out.tokens.push(tok)`, else the error.
unfoldable pub push : List Token → Token → (List Token → LexResult) → LexResult
unfolding token_span
push out tok next =
    if ltb (length out) max_tokens
    then next (out ++ (tok ∷ []))
    else failed (record { code = too_many_tokens; span = token_span tok; detail = [] })

unfoldable pub eof_token : ℕ → Cursor → Token
eof_token len cur = record {
  type = eof;
  text = [];
  start = len;
  end = len;
  line = cur.line;
  col = cur.col;
}

unfoldable pub finish : ℕ → Cursor → List Token → LexResult
unfolding push eof_token
finish len cur out = push out (eof_token len cur) lexed

-- The loop. A round passes a byte or more, so the length of the source is fuel enough.
unfoldable pub lex_from : ℕ → ℕ → Cursor → List Token → LexResult
unfolding finish round push
lex_from len zero cur out = finish len cur out
lex_from len (suc fuel) cur out = elim (length cur.rest == 0) [
  | true ↦ finish len cur out
  | false ↦ elim (round cur) [
    | skip next ↦ lex_from len fuel next out
    | emit tok next ↦ push out tok (λ out'. lex_from len fuel next out')
    | fail d ↦ failed d
  ]
]

abbrev pub start_cursor : Str → Cursor
start_cursor source = record { pos = 0; line = 1; col = 1; rest = source }

unfoldable pub lex : Str → LexResult
unfolding lex_from
lex source = lex_from (length source) (length source) (start_cursor source) []
