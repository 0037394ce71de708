-- ===== src/Lexer/Print/Reading.antt =====
-- A round of `lex` on a word, a number or a symbol that is written with a space behind it.
use route_lang.Common.{
  ℕ, suc, ◌+◌, ◌≡◌, ◌==◌, ◌&&◌, ◌||◌, refl, ap, subst, ◌∙◌, Bool, true, false, some, List, [], ◌∷◌,
  ◌++◌, length, length-append, drop, take, take-append_all, drop-append_all, get_or, All, arith,
  inl, inr, Bool-cases, if◌then◌else◌,
}
use mathlib.Core.List.{append_assoc}
use route_lang.Tokens.{Str}
use route_lang.Lexer.{
  TokenType, int_lit, dur_lit, eq_eq, arrow, thin_arrow, Cursor, run, token, word, unit_length,
  number, symbols, symbol_among, symbol_type, single, symbol, is_space, is_digit, is_ident_start,
  is_ident_continue,
}
use route_lang.Lexer.Print.{
  word_type, Suffix, no_unit, milliseconds, seconds, minutes, hours, Pair, equal, fat_arrow, thin,
  Reads, run-append, token-Reads, round-word, round-number, round-symbol,
}

pub word-Reads :
    (cur : Cursor) (c : ℕ) (w more : Str)
    → is_ident_start c ≡ true
    → All (λ d. is_ident_continue d ≡ true) w
    → cur.rest ≡ (c ∷ w) ++ (b' ' ∷ more)
    → Reads cur (record { type = word_type (c ∷ w); text = c ∷ w }) (b' ' ∷ more)
word-Reads cur c w more h k e =
    token-Reads cur (word_type (c ∷ w)) (1 + run is_ident_continue (drop 1 cur.rest)) (c ∷ w)
      (b' ' ∷ more) e (size ∙ omega arith)
      (round-word cur c (w ++ (b' ' ∷ more)) e h (no_regex w k)
        ∙ (unfold word in
            ap (λ t. token (1 + run is_ident_continue (drop 1 cur.rest)) (word_type t) cur) text))
  where
    size : 1 + run is_ident_continue (drop 1 cur.rest) ≡ suc (length w)
    size = omega (
      arith,
      ap (λ r. run is_ident_continue (drop 1 r)) e,
      run-append is_ident_continue w b' ' more k
          (unfold is_ident_continue is_ident_start is_digit in refl),
    )

    text : take (1 + run is_ident_continue (drop 1 cur.rest)) cur.rest ≡ c ∷ w
    text =
        ap (λ n. take n cur.rest) size
        ∙ ap (take (suc (length w))) e
        ∙ ap (◌∷◌ c) (take-append_all w (b' ' ∷ more))

    no_regex :
        (v : Str)
        → All (λ d. is_ident_continue d ≡ true) v
        → ((get_or (v ++ (b' ' ∷ more)) 0 0 == b'e') && (get_or (v ++ (b' ' ∷ more)) 1 0 == b'"'))
          ≡ false
    no_regex [] q = refl
    no_regex (a ∷ []) q = ground arith
    no_regex (a ∷ b ∷ v) q =
        unfold is_ident_continue is_ident_start is_digit in ground (arith, q.1.0)

-- Digits with a suffix `u` behind them, where the digits end at `d`.
digits-Reads :
    (cur : Cursor) (c : ℕ) (w u : Str) (d : ℕ) (t more : Str)
    → is_digit c ≡ true
    → All (λ a. is_digit a ≡ true) w
    → u ++ (b' ' ∷ more) ≡ d ∷ t
    → is_digit d ≡ false
    → unit_length (d ∷ t) ≡ length u
    → cur.rest ≡ (c ∷ (w ++ u)) ++ (b' ' ∷ more)
    → Reads cur
        (record { type = if length u == 0 then int_lit else dur_lit; text = c ∷ (w ++ u) })
        (b' ' ∷ more)
digits-Reads cur c w u d t more h k b stop units e =
    token-Reads cur (if length u == 0 then int_lit else dur_lit)
      (1 + run is_digit (drop 1 cur.rest) + length u) (c ∷ (w ++ u)) (b' ' ∷ more) e
      (omega (arith, size, length-append w u))
      (round-number cur c (w ++ (d ∷ t)) whole h
        ∙ (unfold number in
            ap
              (λ n.
                token (1 + run is_digit (drop 1 cur.rest) + n) (if n == 0 then int_lit else dur_lit)
                  cur)
              unit))
  where
    whole : cur.rest ≡ c ∷ (w ++ (d ∷ t))
    whole = e ∙ ap (◌∷◌ c) (append_assoc w u (b' ' ∷ more) ∙ ap (λ x. w ++ x) b)

    size : 1 + run is_digit (drop 1 cur.rest) ≡ suc (length w)
    size = omega (arith, ap (λ r. run is_digit (drop 1 r)) whole, run-append is_digit w d t k stop)

    unit : unit_length (drop (1 + run is_digit (drop 1 cur.rest)) cur.rest) ≡ length u
    unit =
        ap (λ n. unit_length (drop n cur.rest)) size
        ∙ ap (λ r. unit_length (drop (suc (length w)) r)) whole
        ∙ ap unit_length (drop-append_all w (d ∷ t))
        ∙ units

pub number-Reads :
    (cur : Cursor) (c : ℕ) (w u : Str) (type : TokenType) (more : Str)
    → is_digit c ≡ true
    → All (λ d. is_digit d ≡ true) w
    → Suffix u type
    → cur.rest ≡ (c ∷ (w ++ u)) ++ (b' ' ∷ more)
    → Reads cur (record { type = type; text = c ∷ (w ++ u) }) (b' ' ∷ more)
unfolding is_digit unit_length is_ident_continue is_ident_start
number-Reads cur c w _ _ more h k no_unit e =
    digits-Reads cur c w [] b' ' more more h k refl refl (ground arith) e
number-Reads cur c w _ _ more h k milliseconds e =
    digits-Reads cur c w (b'm' ∷ b's' ∷ []) b'm' (b's' ∷ b' ' ∷ more) more h k refl refl refl e
number-Reads cur c w _ _ more h k seconds e =
    digits-Reads cur c w (b's' ∷ []) b's' (b' ' ∷ more) more h k refl refl refl e
number-Reads cur c w _ _ more h k minutes e =
    digits-Reads cur c w (b'm' ∷ []) b'm' (b' ' ∷ more) more h k refl refl refl e
number-Reads cur c w _ _ more h k hours e =
    digits-Reads cur c w (b'h' ∷ []) b'h' (b' ' ∷ more) more h k refl refl refl e

-- What all the symbols of a table fail, one that was found fails.
symbol_among-All :
    (test : ℕ → Bool) (table : List (ℕ × TokenType)) (c : ℕ) (type : TokenType)
    → All (λ e. test e.0 ≡ false) table
    → symbol_among table c ≡ some type
    → test c ≡ false
unfolding symbol_among
symbol_among-All test [] c type h e = absurd (ground (arith, e))
symbol_among-All test (entry ∷ table) c type h e = elim (Bool-cases (c == entry.0)) [
  | inl here ↦ (let q : entry.0 ≡ c = ground (arith, here) in subst (λ k. test k ≡ false) q h.0)
  | inr other ↦ symbol_among-All test table c type h.1 (rw other at e)
]

abbrev begins_other : ℕ → Bool
begins_other c = is_space c || (is_ident_start c || (is_digit c || (c == b'"' || c == b'/')))

symbol_type-begins_other :
    (c : ℕ) (type : TokenType) → symbol_type c ≡ some type → begins_other c ≡ false
unfolding symbol_type is_space is_ident_start is_digit
symbol_type-begins_other c type h =
    symbol_among-All begins_other symbols c type
      (
        refl,
        (
          refl,
          (
            refl,
            (
              refl,
              (
                refl,
                (refl, (refl, (refl, (refl, (refl, (refl, (refl, (refl, (refl, (refl, tt)))))))))),
              ),
            ),
          ),
        ),
      )
      h

pub symbol-Reads :
    (cur : Cursor) (c : ℕ) (type : TokenType) (more : Str)
    → symbol_type c ≡ some type
    → cur.rest ≡ c ∷ b' ' ∷ more
    → Reads cur (record { type = type; text = c ∷ [] }) (b' ' ∷ more)
symbol-Reads cur c type more h e =
    let b : begins_other c ≡ false = symbol_type-begins_other c type h in
    token-Reads cur type 1 (c ∷ []) (b' ' ∷ more) e refl (
      round-symbol cur c (b' ' ∷ more) e (ground (arith, b)) (ground (arith, b)) (ground (arith, b))
        (ground (arith, b)) (ground (arith, b))
      ∙ (unfold symbol in rw (eqs, fat, thin) (ap (single cur) kind ∙ (unfold single in refl))))
  where
    second : get_or cur.rest 1 0 ≡ b' '
    second = ap (λ r. get_or r 1 0) e

    eqs : (get_or cur.rest 0 0 == b'=' && get_or cur.rest 1 0 == b'=') ≡ false
    eqs = ground (arith, second)

    fat : (get_or cur.rest 0 0 == b'=' && get_or cur.rest 1 0 == b'>') ≡ false
    fat = ground (arith, second)

    thin : (get_or cur.rest 0 0 == b'-' && get_or cur.rest 1 0 == b'>') ≡ false
    thin = ground (arith, second)

    kind : symbol_type (get_or cur.rest 0 0) ≡ some type
    kind = ap (λ r. symbol_type (get_or r 0 0)) e ∙ h

pub pair-Reads :
    (cur : Cursor) (c d : ℕ) (type : TokenType) (more : Str)
    → Pair c d type
    → cur.rest ≡ c ∷ d ∷ b' ' ∷ more
    → Reads cur (record { type = type; text = c ∷ d ∷ [] }) (b' ' ∷ more)
unfolding is_space is_ident_start is_digit symbol
pair-Reads cur _ _ _ more equal e =
    token-Reads cur eq_eq 2 (b'=' ∷ b'=' ∷ []) (b' ' ∷ more) e refl (
      round-symbol cur b'=' (b'=' ∷ b' ' ∷ more) e refl refl refl refl refl
      ∙ ground (arith, ap (λ r. get_or r 0 0) e, ap (λ r. get_or r 1 0) e))
pair-Reads cur _ _ _ more fat_arrow e =
    token-Reads cur arrow 2 (b'=' ∷ b'>' ∷ []) (b' ' ∷ more) e refl (
      round-symbol cur b'=' (b'>' ∷ b' ' ∷ more) e refl refl refl refl refl
      ∙ ground (arith, ap (λ r. get_or r 0 0) e, ap (λ r. get_or r 1 0) e))
pair-Reads cur _ _ _ more thin e =
    token-Reads cur thin_arrow 2 (b'-' ∷ b'>' ∷ []) (b' ' ∷ more) e refl (
      round-symbol cur b'-' (b'>' ∷ b' ' ∷ more) e refl refl refl refl refl
      ∙ ground (arith, ap (λ r. get_or r 0 0) e, ap (λ r. get_or r 1 0) e))
