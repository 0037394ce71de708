-- ===== src/Lexer/Print/Literals.antt =====
-- A round of `lex` on a string or a regular expression that is written with a space behind it.
use route_lang.Common.{
  ◌+◌, ◌≡◌, ◌==◌, refl, ap, sym, ◌∙◌, true, [], ◌∷◌, ◌++◌, length, drop, drop-drop, take,
  take-append_all, drop-append_all, arith, inl, inr, Bool-cases,
}
use mathlib.Core.List.{append_assoc}
use route_lang.Tokens.{Str}
use route_lang.Lexer.{
  TokenType, string_lit, regex_lit, Cursor, round, forward, closed, scan_quoted, end_quoted, quoted,
}
use route_lang.Lexer.Print.{inside, Reads, round-string, round-regex}

scan_quoted-inside :
    (w more : Str) → inside w ≡ true → scan_quoted (w ++ (b'"' ∷ more)) ≡ closed (length w)
unfolding scan_quoted inside
scan_quoted-inside [] [] h = refl
scan_quoted-inside [] (x ∷ more) h = refl
scan_quoted-inside (c ∷ []) more h = ground (arith, h, scan_quoted-inside [] more refl)
scan_quoted-inside (c ∷ d ∷ w) more h = elim (Bool-cases (c == b'\\')) [
  | inl escape ↦ ground (arith, h, escape, scan_quoted-inside w more (rw escape at h))
  | inr other ↦
      let k : inside (d ∷ w) ≡ true = ground (arith, h, other) in
      ground (arith, h, other, scan_quoted-inside (d ∷ w) more k)
]

-- A literal whose inside `w` begins behind the bytes `start`.
quoted-Reads :
    (cur : Cursor) (type : TokenType) (start w more : Str)
    → inside w ≡ true
    → cur.rest ≡ start ++ (w ++ (b'"' ∷ b' ' ∷ more))
    → round cur ≡ quoted (length start) type cur
    → Reads cur (record { type = type; text = w }) (b' ' ∷ more)
unfolding end_quoted forward
quoted-Reads cur type start w more h e r = record {
  tok = record {
    type = type;
    text = take (length w) (drop (length start) cur.rest);
    start = cur.pos + length start;
    end = cur.pos + length start + length w;
    line = cur.line;
    col = cur.col + length start;
  };
  next = record {
    pos = cur.pos + (length start + length w + 1);
    line = cur.line;
    col = cur.col + (length start + length w + 1);
    rest = drop (length start + length w + 1) cur.rest;
  };
  by_round = r ∙ (unfold quoted in ap (end_quoted (length start) type cur) scanned);
  same =
      ap (λ s. record { type = type; text = take (length w) s }) behind_start
      ∙ ap (λ x. record { type = type; text = x }) (take-append_all w (b'"' ∷ b' ' ∷ more));
  behind =
      ap (λ n. drop n cur.rest) (omega arith)
      ∙ sym (drop-drop (1 + length w) (length start) cur.rest)
      ∙ ap (drop (1 + length w)) behind_start
      ∙ sym (
          drop-drop 1 (length w) (w ++ (b'"' ∷ b' ' ∷ more))
          ∙ ap (λ n. drop n (w ++ (b'"' ∷ b' ' ∷ more))) (omega arith))
      ∙ ap (drop 1) (drop-append_all w (b'"' ∷ b' ' ∷ more));
}
  where
    behind_start : drop (length start) cur.rest ≡ w ++ (b'"' ∷ b' ' ∷ more)
    behind_start = ap (drop (length start)) e ∙ drop-append_all start (w ++ (b'"' ∷ b' ' ∷ more))

    scanned : scan_quoted (drop (length start) cur.rest) ≡ closed (length w)
    scanned = ap scan_quoted behind_start ∙ scan_quoted-inside w (b' ' ∷ more) h

pub string-Reads :
    (cur : Cursor) (w more : Str)
    → inside w ≡ true
    → cur.rest ≡ (b'"' ∷ (w ++ (b'"' ∷ []))) ++ (b' ' ∷ more)
    → Reads cur (record { type = string_lit; text = w }) (b' ' ∷ more)
string-Reads cur w more h e =
    quoted-Reads cur string_lit (b'"' ∷ []) w more h
      (e ∙ ap (◌∷◌ b'"') (append_assoc w (b'"' ∷ []) (b' ' ∷ more)))
      (round-string cur b'"' ((w ++ (b'"' ∷ [])) ++ (b' ' ∷ more)) e refl)

pub regex-Reads :
    (cur : Cursor) (w more : Str)
    → inside w ≡ true
    → cur.rest ≡ (b'r' ∷ b'e' ∷ b'"' ∷ (w ++ (b'"' ∷ []))) ++ (b' ' ∷ more)
    → Reads cur (record { type = regex_lit; text = w }) (b' ' ∷ more)
regex-Reads cur w more h e =
    quoted-Reads cur regex_lit (b'r' ∷ b'e' ∷ b'"' ∷ []) w more h
      (e ∙ ap (λ s. b'r' ∷ b'e' ∷ b'"' ∷ s) (append_assoc w (b'"' ∷ []) (b' ' ∷ more)))
      (round-regex cur b'r' (b'e' ∷ b'"' ∷ ((w ++ (b'"' ∷ [])) ++ (b' ' ∷ more))) e refl refl refl)
