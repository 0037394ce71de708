-- ===== src/Lexer/Print.antt =====
-- Tokens as text, and which round of `lex` each begins.
pub mod Reading
pub mod Literals
use route_lang.Common.{
  ℕ, zero, suc, ◌+◌, ◌-◌, ◌≤◌, ◌<◌, ◌≡◌, ◌==◌, ◌&&◌, ◌||◌, not, refl, ap, sym, subst, ◌∙◌, Bool,
  true, false, Option, none, some, List, [], ◌∷◌, ◌++◌, length, length-append, drop, drop-drop,
  take, take-append_all, drop-append_all, get_or, All, arith, inl, inr, Bool-cases, if◌then◌else◌,
  leb, codes,
}
use mathlib.Core.List.{append_assoc}
use route_lang.Tokens.{Str}
use route_lang.Lexer.{
  TokenType, underscore, keyword_type, int_lit, dur_lit, string_lit, regex_lit, eq_eq, arrow,
  thin_arrow, Token, Cursor, forward, run, Round, skip, emit, token, Quoted, closed, passed,
  scan_quoted, end_quoted, quoted, word, unit_length, number, symbols, symbol_among, symbol_type,
  single, symbol, round, is_space, is_digit, is_ident_start, is_ident_continue,
}

-- A token without its place.
pub record Lexeme : Type 0 where
  pub type : TokenType
  pub text : Str

abbrev pub lexeme_of : Token → Lexeme
lexeme_of tok = record { type = tok.type; text = tok.text }

abbrev pub word_type : Str → TokenType
word_type text =
    if length text == 1 && get_or text 0 0 == b'_' then underscore else keyword_type text

-- A byte of a string that is neither a quote nor a backslash nor a newline.
abbrev pub plain : ℕ → Bool
plain c = not (c == b'"' || (c == b'\\' || c == b'\n'))

-- The inside of a literal: plain bytes, and backslashes with any byte behind them.
unfoldable pub inside : Str → Bool
inside [] = true
inside (c ∷ []) = plain c
inside (c ∷ d ∷ w) =
    let one = inside (d ∷ w) in let two = inside w in if c == b'\\' then two else plain c && one

-- What stands behind the digits of a number, and the type it makes of them.
pub data Suffix : Str → TokenType → Type 0 where
  no_unit : Suffix [] int_lit
  milliseconds : Suffix (b'm' ∷ b's' ∷ []) dur_lit
  seconds : Suffix (b's' ∷ []) dur_lit
  minutes : Suffix (b'm' ∷ []) dur_lit
  hours : Suffix (b'h' ∷ []) dur_lit

-- The symbols of two bytes.
pub data Pair : ℕ → ℕ → TokenType → Type 0 where
  equal : Pair b'=' b'=' eq_eq
  fat_arrow : Pair b'=' b'>' arrow
  thin : Pair b'-' b'>' thin_arrow

-- How a token is written, one constructor for each kind that `round` reads.
pub data Written : Lexeme → Str → Type 0 where
  a_word :
      (c : ℕ) (w : Str)
      → is_ident_start c ≡ true
      → All (λ d. is_ident_continue d ≡ true) w
      → Written (record { type = word_type (c ∷ w); text = c ∷ w }) (c ∷ w)
  a_number :
      (c : ℕ) (w unit : Str) (type : TokenType)
      → is_digit c ≡ true
      → All (λ d. is_digit d ≡ true) w
      → Suffix unit type
      → Written (record { type = type; text = c ∷ (w ++ unit) }) (c ∷ (w ++ unit))
  a_string :
      (w : Str)
      → inside w ≡ true
      → Written (record { type = string_lit; text = w }) (b'"' ∷ (w ++ (b'"' ∷ [])))
  a_regex :
      (w : Str)
      → inside w ≡ true
      → Written (record { type = regex_lit; text = w }) (b'r' ∷ b'e' ∷ b'"' ∷ (w ++ (b'"' ∷ [])))
  a_symbol :
      (c : ℕ) (type : TokenType)
      → symbol_type c ≡ some type
      → Written (record { type = type; text = c ∷ [] }) (c ∷ [])
  a_pair :
      (c d : ℕ) (type : TokenType)
      → Pair c d type
      → Written (record { type = type; text = c ∷ d ∷ [] }) (c ∷ d ∷ [])

-- A round at `cur` reads the token `l` and stops at `rest`.
pub record Reads (cur : Cursor) (l : Lexeme) (rest : Str) : Type 0 where
  pub tok : Token
  pub next : Cursor
  pub by_round : round cur ≡ emit tok next
  pub same : lexeme_of tok ≡ l
  pub behind : next.rest ≡ rest

pub run-append :
    (test : ℕ → Bool) (w : Str) (d : ℕ) (s : Str)
    → All (λ c. test c ≡ true) w
    → test d ≡ false
    → run test (w ++ (d ∷ s)) ≡ length w
unfolding run
run-append test [] d s h stop = rw stop refl
run-append test (c ∷ w) d s h stop = rw h.0 (ap suc (run-append test w d s h.1 stop))

-- A token of the bytes `w`.
pub token-Reads :
    (cur : Cursor) (type : TokenType) (n : ℕ) (w s : Str)
    → cur.rest ≡ w ++ s
    → n ≡ length w
    → round cur ≡ token n type cur
    → Reads cur (record { type = type; text = w }) s
unfolding token forward
token-Reads cur type n w s e k r = record {
  tok = record {
    type = type;
    text = take n cur.rest;
    start = cur.pos;
    end = cur.pos + n;
    line = cur.line;
    col = cur.col;
  };
  next = record { pos = cur.pos + n; line = cur.line; col = cur.col + n; rest = drop n cur.rest };
  by_round = r;
  same = ap (λ x. record { type = type; text = x }) (rw (k, e) (take-append_all w s));
  behind = rw (k, e) (drop-append_all w s);
}

-- Which round it is, by the first bytes.
module _ (cur : Cursor) (c : ℕ) (s : Str) (e : cur.rest ≡ c ∷ s) where
  first : get_or cur.rest 0 0 ≡ c
  first = ap (λ r. get_or r 0 0) e

  no_comment :
      (c == b'/') ≡ false → (get_or cur.rest 0 0 == b'/' && get_or cur.rest 1 0 == b'/') ≡ false
  no_comment h = ground (arith, first, h)

  pub round-word :
      is_ident_start c ≡ true
      → ((get_or s 0 0 == b'e') && (get_or s 1 0 == b'"')) ≡ false
      → round cur ≡ word cur
  unfolding round
  round-word h k =
      let not_space : is_space (get_or cur.rest 0 0) ≡ false =
        ap is_space first ∙ (unfold is_space is_ident_start in ground (arith, h)) in
      let start : is_ident_start (get_or cur.rest 0 0) ≡ true = ap is_ident_start first ∙ h in
      let no_regex : (get_or cur.rest 0 0 == b'r'
            && (get_or cur.rest 1 0 == b'e' && get_or cur.rest 2 0 == b'"'))
          ≡ false =
        rw e (ground (arith, k)) in
      rw (not_space, no_comment (unfold is_ident_start in ground (arith, h)), no_regex, start)

  pub round-number : is_digit c ≡ true → round cur ≡ number cur
  unfolding round
  round-number h =
      let not_space : is_space (get_or cur.rest 0 0) ≡ false =
        ap is_space first ∙ (unfold is_space is_digit in ground (arith, h)) in
      let not_start : is_ident_start (get_or cur.rest 0 0) ≡ false =
        ap is_ident_start first ∙ (unfold is_ident_start is_digit in ground (arith, h)) in
      let digit : is_digit (get_or cur.rest 0 0) ≡ true = ap is_digit first ∙ h in
      let no_regex : (get_or cur.rest 0 0 == b'r'
            && (get_or cur.rest 1 0 == b'e' && get_or cur.rest 2 0 == b'"'))
          ≡ false =
        unfold is_digit in ground (arith, first, h) in
      rw (not_space, no_comment (unfold is_digit in ground (arith, h)), no_regex, not_start, digit)

  pub round-string : c ≡ b'"' → round cur ≡ quoted 1 string_lit cur
  unfolding round is_space is_ident_start is_digit
  round-string h = ground (arith, first, h)

  pub round-regex :
      c ≡ b'r' → get_or s 0 0 ≡ b'e' → get_or s 1 0 ≡ b'"' → round cur ≡ quoted 3 regex_lit cur
  unfolding round is_space
  round-regex h k q =
      let second : get_or cur.rest 1 0 ≡ b'e' = ap (λ r. get_or r 1 0) e ∙ k in
      let third : get_or cur.rest 2 0 ≡ b'"' = ap (λ r. get_or r 2 0) e ∙ q in
      ground (arith, first, h, second, third)

  pub round-symbol :
      is_space c ≡ false
      → is_ident_start c ≡ false
      → is_digit c ≡ false
      → (c == b'"') ≡ false
      → (c == b'/') ≡ false
      → round cur ≡ symbol cur
  unfolding round
  round-symbol space start digit quote slash =
      let not_space : is_space (get_or cur.rest 0 0) ≡ false = ap is_space first ∙ space in
      let not_start : is_ident_start (get_or cur.rest 0 0) ≡ false =
        ap is_ident_start first ∙ start in
      let not_digit : is_digit (get_or cur.rest 0 0) ≡ false = ap is_digit first ∙ digit in
      let not_quote : (get_or cur.rest 0 0 == b'"') ≡ false = ground (arith, first, quote) in
      let no_regex : (get_or cur.rest 0 0 == b'r'
            && (get_or cur.rest 1 0 == b'e' && get_or cur.rest 2 0 == b'"'))
          ≡ false =
        unfold is_ident_start in ground (arith, first, start) in
      rw (not_space, no_comment slash, no_regex, not_start, not_digit, not_quote)
