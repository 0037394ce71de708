-- ===== src/Lexer/Placed.antt =====
-- Where a token lies in the source of `lex`: its text, its line and its column.
use route_lang.Common.{
  ℕ, ◌+◌, ◌-◌, ◌≤◌, ◌<◌, ◌≡◌, ◌==◌, ◌&&◌, ap, sym, subst, ◌∙◌, true, false, List, [], ◌∷◌, length,
  length-drop, drop-drop, drop, take, get_or, arith, inl, inr, Bool-cases,
}
use route_lang.Tokens.{Str}
use route_lang.Lexer.{
  regex_lit, string_lit, eof, Token, Cursor, skip, emit, round, is_space, is_digit, is_ident_start,
}
use route_lang.Lexer.Position.{
  walk, no_escaped_newline, OneLine, walk-append, take-add, no_escaped_newline-drop,
}
use route_lang.Lexer.Rounds.{
  Step, Covers, RoundLaw, quoted-RoundLaw, head_line, word-RoundLaw, number-RoundLaw,
}
use route_lang.Lexer.Rounds.Symbols.{symbol-RoundLaw, space-RoundLaw, comment-RoundLaw}

regex_prefix :
    (s : Str)
    → get_or s 0 0 ≡ b'r'
    → get_or s 1 0 ≡ b'e'
    → get_or s 2 0 ≡ b'"'
    → (3 ≤ length s) × OneLine (take 3 s)
regex_prefix [] a b c = absurd (omega arith)
regex_prefix (x ∷ []) a b c = absurd (omega arith)
regex_prefix (x ∷ y ∷ []) a b c = absurd (omega arith)
regex_prefix (x ∷ y ∷ z ∷ s) a b c =
    (omega arith, (ground (arith, a), (ground (arith, b), (ground (arith, c), tt))))

-- A round before the end of the source.
pub round-RoundLaw : (cur : Cursor) → 0 < length cur.rest → RoundLaw cur (round cur)
unfolding round
round-RoundLaw cur some_left = elim (Bool-cases (is_space c)) [
  | inl space ↦ rw space (space-RoundLaw cur some_left)
  | inr no_space ↦ elim (Bool-cases (c == b'/' && d == b'/')) [
    | inl slashes ↦
        rw (no_space, slashes)
          (comment-RoundLaw cur (ground (arith, slashes)) (ground (arith, slashes)))
    | inr no_comment ↦ elim (Bool-cases (c == b'r' && (d == b'e' && get_or cur.rest 2 0 == b'"'))) [
      | inl re ↦
          let p : (3 ≤ length cur.rest) × OneLine (take 3 cur.rest) =
            regex_prefix cur.rest (ground (arith, re)) (ground (arith, re)) (ground (arith, re)) in
          rw (no_space, no_comment, re) (quoted-RoundLaw 3 regex_lit cur p.0 p.1)
      | inr no_regex ↦ elim (Bool-cases (is_ident_start c)) [
        | inl start ↦ rw (no_space, no_comment, no_regex, start) (word-RoundLaw cur some_left start)
        | inr no_word ↦ elim (Bool-cases (is_digit c)) [
          | inl digit ↦
              rw (no_space, no_comment, no_regex, no_word, digit)
                (number-RoundLaw cur some_left digit)
          | inr no_number ↦ elim (Bool-cases (c == b'"')) [
            | inl quote ↦
                rw (no_space, no_comment, no_regex, no_word, no_number, quote)
                  (quoted-RoundLaw 1 string_lit cur (omega arith)
                    (head_line cur.rest (ground (arith, quote))))
            | inr no_quote ↦
                rw (no_space, no_comment, no_regex, no_word, no_number, no_quote)
                  (symbol-RoundLaw cur some_left (line no_space))
          ]
        ]
      ]
    ]
  ]
]
  where
    c : ℕ
    c = get_or cur.rest 0 0

    d : ℕ
    d = get_or cur.rest 1 0

    line : is_space c ≡ false → (c == b'\n') ≡ false
    line h = unfold is_space in ground (arith, h)

module _ (cur next : Cursor) (some_left : 0 < length cur.rest) where
  pub skip-Step : round cur ≡ skip next → (n : ℕ) × Step cur next n
  unfolding RoundLaw
  skip-Step e = subst (RoundLaw cur) e (round-RoundLaw cur some_left)

  pub emit-Covers :
      (tok : Token)
      → round cur ≡ emit tok next
      → (n : ℕ) × Step cur next n × ((k : ℕ) × (m : ℕ) × (k + m ≤ n) × Covers cur tok k m)
  unfolding RoundLaw
  emit-Covers tok e = subst (RoundLaw cur) e (round-RoundLaw cur some_left)

-- The cursor stands at `pos` of the source, on the line and column that the text before it ends.
pub record At (source : Str) (cur : Cursor) : Type 0 where
  pub inside : cur.pos ≤ length source
  pub rest : cur.rest ≡ drop cur.pos source
  pub place :
      no_escaped_newline source ≡ true → (cur.line, cur.col) ≡ walk (take cur.pos source) (1, 1)

-- A token lies behind `from`, holds the text of the source between its start and its end, and has
-- the line and column of its start.
pub record Placed (source : Str) (from : ℕ) (tok : Token) : Type 0 where
  pub behind : from ≤ tok.start
  pub order : tok.start ≤ tok.end
  pub inside : tok.end ≤ length source
  pub text : tok.text ≡ take (tok.end - tok.start) (drop tok.start source)
  pub place :
      no_escaped_newline source ≡ true → (tok.line, tok.col) ≡ walk (take tok.start source) (1, 1)

-- One token behind the other, the last one `eof` at the end of the source.
unfoldable pub AllPlaced : Str → ℕ → List Token → Type 0
AllPlaced source from [] = ⊥
AllPlaced source from (tok ∷ []) =
    (tok.type ≡ eof) × (tok.start ≡ length source) × Placed source from tok
AllPlaced source from (tok ∷ next ∷ more) =
    Placed source from tok × AllPlaced source tok.end (next ∷ more)

module _ (source : Str) (cur : Cursor) (a : At source cur) where
  -- `k` bytes further on.
  place-add :
      (k : ℕ)
      → no_escaped_newline source ≡ true
      → walk (take k cur.rest) (cur.line, cur.col) ≡ walk (take (cur.pos + k) source) (1, 1)
  place-add k p =
      ap (λ s. walk (take k s) (cur.line, cur.col)) a.rest
      ∙ ap (walk (take k (drop cur.pos source))) (a.place p)
      ∙ sym (walk-append (take cur.pos source) (take k (drop cur.pos source)) (1, 1))
      ∙ ap (λ s. walk s (1, 1)) (sym (take-add cur.pos k source))

  pub rest-length : cur.pos + length cur.rest ≡ length source
  rest-length = omega (arith, ap (length {A = ℕ}) a.rest, length-drop cur.pos source, a.inside)

  pub Step-At : (next : Cursor) (n : ℕ) → Step cur next n → At source next
  Step-At next n s = record {
    inside = omega (arith, s.pos, s.fits, rest-length);
    rest =
        s.rest
        ∙ ap (drop n) a.rest
        ∙ drop-drop n cur.pos source
        ∙ ap (λ k. drop k source) (sym s.pos);
    place = λ p.
        s.place (
          subst (λ r. no_escaped_newline r ≡ true) (sym a.rest)
            (no_escaped_newline-drop cur.pos source p))
        ∙ place-add n p
        ∙ ap (λ k. walk (take k source) (1, 1)) (sym s.pos);
  }

  pub Covers-Placed :
      (from : ℕ) (tok : Token) (k m n : ℕ)
      → from ≤ cur.pos
      → k + m ≤ n
      → n ≤ length cur.rest
      → Covers cur tok k m
      → Placed source from tok
  Covers-Placed from tok k m n behind le fits c = record {
    behind = omega (arith, c.start);
    order = omega (arith, c.start, c.end);
    inside = omega (arith, c.end, rest-length);
    text =
        c.text
        ∙ ap (λ s. take m (drop k s)) a.rest
        ∙ ap (take m) (drop-drop k cur.pos source)
        ∙ ap (λ x. take m (drop x source)) (sym c.start)
        ∙ ap (λ x. take x (drop tok.start source)) (omega (arith, c.start, c.end));
    place = λ p. c.place ∙ place-add k p ∙ ap (λ x. walk (take x source) (1, 1)) (sym c.start);
  }
