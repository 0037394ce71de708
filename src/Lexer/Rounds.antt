-- ===== src/Lexer/Rounds.antt =====
-- How far a round of `lex` goes on and how it counts: words, numbers and literals.
pub mod Symbols
use route_lang.Common.{
  ℕ, zero, suc, ◌+◌, ◌-◌, ◌≤◌, ◌<◌, ◌≡◌, ◌==◌, ◌&&◌, ◌||◌, not, refl, ap, sym, ◌∙◌, Bool, true,
  false, Option, none, some, List, [], ◌∷◌, ◌++◌, length, length-take, length-drop, drop, take,
  get_or, All, arith, inl, inr, Bool-cases, Option-cases, if◌then◌else◌, leb,
}
use route_lang.Tokens.{Str}
use route_lang.Lexer.{
  TokenType, underscore, keyword_type, int_lit, dur_lit, regex_lit, string_lit, eq_eq, arrow,
  thin_arrow, Token, Cursor, forward, new_line, run, Round, skip, emit, fail, token, Quoted, closed,
  unterminated, scan_quoted, end_quoted, quoted, word, unit_length, number, symbol_type, single,
  symbol, not_newline, round, is_space, is_digit, is_ident_start, is_ident_continue,
}
use route_lang.Lexer.Position.{
  walk, no_escaped_newline, OneLine, OneLine-append, walk-OneLine, take-add, run_le, run-OneLine,
  no_escaped_newline-drop, scan_quoted-Closes,
}

-- The cursor goes on by `n` bytes, at least one, and its line and column are those behind them.
pub record Step (cur next : Cursor) (n : ℕ) : Type 0 where
  pub some_byte : 0 < n
  pub fits : n ≤ length cur.rest
  pub pos : next.pos ≡ cur.pos + n
  pub rest : next.rest ≡ drop n cur.rest
  pub place :
      no_escaped_newline cur.rest ≡ true
      → (next.line, next.col) ≡ walk (take n cur.rest) (cur.line, cur.col)

-- A token of the `m` bytes behind the next `k`, with its own line and column.
pub record Covers (cur : Cursor) (tok : Token) (k m : ℕ) : Type 0 where
  pub start : tok.start ≡ cur.pos + k
  pub end : tok.end ≡ cur.pos + k + m
  pub text : tok.text ≡ take m (drop k cur.rest)
  pub place : (tok.line, tok.col) ≡ walk (take k cur.rest) (cur.line, cur.col)

unfoldable pub RoundLaw : Cursor → Round → Type 0
RoundLaw cur (skip next) = (n : ℕ) × Step cur next n
RoundLaw cur (emit tok next) =
    (n : ℕ) × Step cur next n × ((k : ℕ) × (m : ℕ) × (k + m ≤ n) × Covers cur tok k m)
RoundLaw cur (fail d) = Unit

pub forward-Step :
    (n : ℕ) (cur : Cursor)
    → 0 < n
    → n ≤ length cur.rest
    → (no_escaped_newline cur.rest ≡ true → OneLine (take n cur.rest))
    → Step cur (forward n cur) n
unfolding forward
forward-Step n cur h k l = record {
  some_byte = h;
  fits = k;
  pos = refl;
  rest = refl;
  place = λ p.
      ap (λ x. (cur.line, cur.col + x)) (omega (arith, length-take n cur.rest))
      ∙ sym (walk-OneLine (take n cur.rest) cur.line cur.col (l p));
}

pub token-RoundLaw :
    (n : ℕ) (type : TokenType) (cur : Cursor)
    → 0 < n
    → n ≤ length cur.rest
    → OneLine (take n cur.rest)
    → RoundLaw cur (token n type cur)
unfolding token walk RoundLaw
token-RoundLaw n type cur h k l = (
  n,
  forward-Step n cur h k (λ p. l),
  (0, n, omega arith, record { start = omega arith; end = omega arith; text = refl; place = refl }),
)

pub quoted-RoundLaw :
    (k : ℕ) (type : TokenType) (cur : Cursor)
    → k ≤ length cur.rest
    → OneLine (take k cur.rest)
    → RoundLaw cur (quoted k type cur)
unfolding quoted end_quoted RoundLaw
quoted-RoundLaw k type cur h l = ends (scan_quoted (drop k cur.rest)) refl
  where
    ends : (q : Quoted) → scan_quoted (drop k cur.rest) ≡ q → RoundLaw cur (end_quoted k type cur q)
    ends (unterminated n) e = tt
    ends (closed n) e =
        let c : (n < length (drop k cur.rest))
            × (no_escaped_newline (drop k cur.rest) ≡ true
                → OneLine (take (suc n) (drop k cur.rest))) =
          scan_quoted-Closes (drop k cur.rest) n e in
        (
          k + n + 1,
          forward-Step (k + n + 1) cur (omega arith) (omega (arith, c, length-drop k cur.rest))
              (λ p.
                let e : k + n + 1 ≡ k + suc n = omega arith in
                rw (e, take-add k (suc n) cur.rest)
                  (OneLine-append (take k cur.rest) (take (suc n) (drop k cur.rest)) l
                    (c.1 (no_escaped_newline-drop k cur.rest p)))),
          (
            k,
            n,
            omega arith,
            record {
              start = refl;
              end = refl;
              text = refl;
              place =
                  ap (λ x. (cur.line, cur.col + x)) (omega (arith, length-take k cur.rest))
                  ∙ sym (walk-OneLine (take k cur.rest) cur.line cur.col l);
            },
          ),
        )

pub head_line : (s : Str) → (get_or s 0 0 == b'\n') ≡ false → OneLine (take 1 s)
head_line [] h = tt
head_line (c ∷ s) h = (h, tt)

-- Behind the first byte, of a run of bytes that are no newlines.
first_run :
    (test : ℕ → Bool) (cur : Cursor)
    → ((c : ℕ) → test c ≡ true → (c == b'\n') ≡ false)
    → 0 < length cur.rest
    → (get_or cur.rest 0 0 == b'\n') ≡ false
    → (1 + run test (drop 1 cur.rest) ≤ length cur.rest)
      × OneLine (take (1 + run test (drop 1 cur.rest)) cur.rest)
first_run test cur h some_left first = (
  omega (arith, run_le test (drop 1 cur.rest), length-drop 1 cur.rest),
  rw (take-add 1 (run test (drop 1 cur.rest)) cur.rest) (
      OneLine-append (take 1 cur.rest) (take (run test (drop 1 cur.rest)) (drop 1 cur.rest))
        (head_line cur.rest first) (run-OneLine test h (drop 1 cur.rest))),
)

continue-line : (c : ℕ) → is_ident_continue c ≡ true → (c == b'\n') ≡ false
unfolding is_ident_continue is_ident_start is_digit
continue-line c h = ground (arith, h)

digit-line : (c : ℕ) → is_digit c ≡ true → (c == b'\n') ≡ false
unfolding is_digit
digit-line c h = ground (arith, h)

pub word-RoundLaw :
    (cur : Cursor)
    → 0 < length cur.rest
    → is_ident_start (get_or cur.rest 0 0) ≡ true
    → RoundLaw cur (word cur)
unfolding word
word-RoundLaw cur some_left start =
    let first : (get_or cur.rest 0 0 == b'\n') ≡ false =
      continue-line (get_or cur.rest 0 0) (unfold is_ident_continue in ground (arith, start)) in
    let r : (1 + run is_ident_continue (drop 1 cur.rest) ≤ length cur.rest)
        × OneLine (take (1 + run is_ident_continue (drop 1 cur.rest)) cur.rest) =
      first_run is_ident_continue cur continue-line some_left first in
    token-RoundLaw (1 + run is_ident_continue (drop 1 cur.rest))
      (if length (take (1 + run is_ident_continue (drop 1 cur.rest)) cur.rest) == 1
          && get_or (take (1 + run is_ident_continue (drop 1 cur.rest)) cur.rest) 0 0 == b'_'
        then underscore
        else keyword_type (take (1 + run is_ident_continue (drop 1 cur.rest)) cur.rest))
      cur (omega arith) r.0 r.1

-- The unit of a duration is inside the text and on the line.
unit_length_lem : (s : Str) → (unit_length s ≤ length s) × OneLine (take (unit_length s) s)
unfolding unit_length
unit_length_lem [] = ground arith
unit_length_lem (c ∷ []) = ground arith
unit_length_lem (c ∷ d ∷ s) = ground arith

pub number-RoundLaw :
    (cur : Cursor)
    → 0 < length cur.rest
    → is_digit (get_or cur.rest 0 0) ≡ true
    → RoundLaw cur (number cur)
unfolding number
number-RoundLaw cur some_left start =
    let n : ℕ = 1 + run is_digit (drop 1 cur.rest) in
    let unit : ℕ = unit_length (drop n cur.rest) in
    let r : (n ≤ length cur.rest) × OneLine (take n cur.rest) =
      first_run is_digit cur digit-line some_left (digit-line (get_or cur.rest 0 0) start) in
    let u : (unit ≤ length (drop n cur.rest)) × OneLine (take unit (drop n cur.rest)) =
      unit_length_lem (drop n cur.rest) in
    token-RoundLaw (n + unit) (if unit == 0 then int_lit else dur_lit) cur (omega arith)
      (omega (arith, r, u, length-drop n cur.rest))
      (rw (take-add n unit cur.rest)
        (OneLine-append (take n cur.rest) (take unit (drop n cur.rest)) r.1 u.1))
