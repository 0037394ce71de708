-- ===== src/Lexer/Rounds/Symbols.antt =====
-- Rounds that read a symbol, a space or a comment.
use route_lang.Common.{
  ℕ, ◌+◌, ◌≤◌, ◌<◌, ◌≡◌, ◌==◌, ◌&&◌, refl, sym, true, false, Option, none, some, [], ◌∷◌, length,
  length-drop, drop, take, get_or, arith, inl, inr, Bool-cases, if◌then◌else◌,
}
use route_lang.Tokens.{Str}
use route_lang.Lexer.{
  TokenType, eq_eq, arrow, thin_arrow, Cursor, forward, new_line, run, skip, token, symbol_type,
  single, symbol, not_newline,
}
use route_lang.Lexer.Position.{walk, OneLine, OneLine-append, take-add, run_le, run-OneLine}
use route_lang.Lexer.Rounds.{RoundLaw, forward-Step, token-RoundLaw, head_line}

-- Two bytes that are no newlines.
two_line :
    (s : Str)
    → (get_or s 0 0 == b'\n') ≡ false
    → (get_or s 1 0 == b'\n') ≡ false
    → OneLine (take 2 s)
two_line [] h k = tt
two_line (c ∷ []) h k = (h, tt)
two_line (c ∷ d ∷ s) h k = (h, (k, tt))

two-length : (s : Str) → (get_or s 1 0 == 0) ≡ false → 2 ≤ length s
two-length [] h = absurd (ground (arith, h))
two-length (c ∷ []) h = absurd (ground (arith, h))
two-length (c ∷ d ∷ s) h = omega arith

single-RoundLaw :
    (cur : Cursor) (o : Option TokenType)
    → 0 < length cur.rest
    → (get_or cur.rest 0 0 == b'\n') ≡ false
    → RoundLaw cur (single cur o)
unfolding single RoundLaw
single-RoundLaw cur none some_left line = tt
single-RoundLaw cur (some type) some_left line =
    token-RoundLaw 1 type cur (omega arith) (omega arith) (head_line cur.rest line)

pair-RoundLaw :
    (type : TokenType) (cur : Cursor)
    → (get_or cur.rest 1 0 == 0) ≡ false
    → (get_or cur.rest 0 0 == b'\n') ≡ false
    → (get_or cur.rest 1 0 == b'\n') ≡ false
    → RoundLaw cur (token 2 type cur)
pair-RoundLaw type cur some_byte first second =
    token-RoundLaw 2 type cur (omega arith) (two-length cur.rest some_byte)
      (two_line cur.rest first second)

pub symbol-RoundLaw :
    (cur : Cursor)
    → 0 < length cur.rest
    → (get_or cur.rest 0 0 == b'\n') ≡ false
    → RoundLaw cur (symbol cur)
unfolding symbol
symbol-RoundLaw cur some_left line = elim (Bool-cases (c == b'=' && d == b'=')) [
  | inl eqs ↦ rw eqs (pair-RoundLaw eq_eq cur (ground (arith, eqs)) line (ground (arith, eqs)))
  | inr no_eqs ↦ elim (Bool-cases (c == b'=' && d == b'>')) [
    | inl fat ↦
        rw (no_eqs, fat) (pair-RoundLaw arrow cur (ground (arith, fat)) line (ground (arith, fat)))
    | inr no_fat ↦ elim (Bool-cases (c == b'-' && d == b'>')) [
      | inl thin ↦
          rw (no_eqs, no_fat, thin)
            (pair-RoundLaw thin_arrow cur (ground (arith, thin)) line (ground (arith, thin)))
      | inr no_thin ↦
          rw (no_eqs, no_fat, no_thin) (single-RoundLaw cur (symbol_type c) some_left line)
    ]
  ]
]
  where
    c : ℕ
    c = get_or cur.rest 0 0

    d : ℕ
    d = get_or cur.rest 1 0

pub space-RoundLaw :
    (cur : Cursor)
    → 0 < length cur.rest
    → RoundLaw cur (skip (if get_or cur.rest 0 0 == b'\n' then new_line cur else forward 1 cur))
unfolding RoundLaw
space-RoundLaw cur some_left = elim (Bool-cases (get_or cur.rest 0 0 == b'\n')) [
  | inl newline ↦ (
    1,
    rw newline (record {
      some_byte = omega arith;
      fits = omega arith;
      pos = unfold new_line in refl;
      rest = unfold new_line in refl;
      place = λ p. unfold new_line in sym (walk_newline cur.rest (cur.line, cur.col) newline);
    }),
  )
  | inr other ↦
      (1, rw other (forward-Step 1 cur (omega arith) (omega arith) (λ p. head_line cur.rest other)))
]
  where
    walk_newline :
        (s : Str) (p : ℕ × ℕ) → (get_or s 0 0 == b'\n') ≡ true → walk (take 1 s) p ≡ (p.0 + 1, 1)
    walk_newline [] p h = absurd (ground (arith, h))
    walk_newline (c ∷ s) p h = unfold walk in rw h refl

pub comment-RoundLaw :
    (cur : Cursor)
    → get_or cur.rest 0 0 ≡ b'/'
    → get_or cur.rest 1 0 ≡ b'/'
    → RoundLaw cur (skip (forward (2 + run not_newline (drop 2 cur.rest)) cur))
unfolding RoundLaw
comment-RoundLaw cur first second =
    let n : ℕ = run not_newline (drop 2 cur.rest) in
    let two : 2 ≤ length cur.rest = two-length cur.rest (ground (arith, second)) in
    (
      2 + n,
      forward-Step (2 + n) cur (omega arith)
          (omega (arith, two, run_le not_newline (drop 2 cur.rest), length-drop 2 cur.rest))
          (λ p. rw (take-add 2 n cur.rest) (
            OneLine-append (take 2 cur.rest) (take n (drop 2 cur.rest))
              (two_line cur.rest (ground (arith, first)) (ground (arith, second)))
              (run-OneLine not_newline (λ c h. ground (arith, h)) (drop 2 cur.rest)))),
    )
