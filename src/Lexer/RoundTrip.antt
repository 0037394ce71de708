-- ===== src/Lexer/RoundTrip.antt =====
-- `lex` on tokens that are written one after the other, each with a space behind it.
use route_lang.Common.{
  ℕ, zero, suc, ◌+◌, ◌≤◌, ◌<◌, ◌≡◌, ◌==◌, refl, ap, sym, subst, ◌∙◌, true, false, List, [], ◌∷◌,
  ◌++◌, map, length, length-append, drop, get_or, arith, ltb,
}
use mathlib.Core.List.{append_assoc, map-append}
use route_lang.Tokens.{Str}
use route_lang.Lexer.{
  eof, Token, max_tokens, Cursor, forward, skip, emit, round, is_space, LexResult, lexed, push,
  finish, eof_token, lex_from, start_cursor, lex,
}
use route_lang.Lexer.Print.{
  Lexeme, lexeme_of, Written, a_word, a_number, a_string, a_regex, a_symbol, a_pair, Reads,
}
use route_lang.Lexer.Print.Reading.{word-Reads, number-Reads, symbol-Reads, pair-Reads}
use route_lang.Lexer.Print.Literals.{string-Reads, regex-Reads}

-- A space behind each text.
unfoldable pub spaced : List Str → Str
spaced [] = []
spaced (w ∷ ws) = w ++ (b' ' ∷ spaced ws)

-- Each text writes its lexeme.
unfoldable pub AllWritten : List Lexeme → List Str → Type 0
AllWritten [] [] = Unit
AllWritten [] (w ∷ ws) = ⊥
AllWritten (l ∷ ls) [] = ⊥
AllWritten (l ∷ ls) (w ∷ ws) = Written l w × AllWritten ls ws

Written-Reads :
    (cur : Cursor) (l : Lexeme) (w more : Str)
    → Written l w
    → cur.rest ≡ w ++ (b' ' ∷ more)
    → Reads cur l (b' ' ∷ more)
Written-Reads cur _ _ more (a_word c w h k) e = word-Reads cur c w more h k e
Written-Reads cur _ _ more (a_number c w u type h k b) e = number-Reads cur c w u type more h k b e
Written-Reads cur _ _ more (a_string w h) e = string-Reads cur w more h e
Written-Reads cur _ _ more (a_regex w h) e = regex-Reads cur w more h e
Written-Reads cur _ _ more (a_symbol c type h) e = symbol-Reads cur c type more h e
Written-Reads cur _ _ more (a_pair c d type h) e = pair-Reads cur c d type more h e

Written-length : (l : Lexeme) (w : Str) → Written l w → 0 < length w
Written-length _ _ (a_word c w h k) = omega arith
Written-length _ _ (a_number c w u type h k b) = omega arith
Written-length _ _ (a_string w h) = omega arith
Written-length _ _ (a_regex w h) = omega arith
Written-length _ _ (a_symbol c type h) = omega arith
Written-length _ _ (a_pair c d type h) = omega arith

round-space :
    (cur : Cursor) (more : Str) → cur.rest ≡ b' ' ∷ more → round cur ≡ skip (forward 1 cur)
unfolding round is_space
round-space cur more e = ground (arith, ap (λ r. get_or r 0 0) e)

abbrev pub eof_lexeme : Lexeme
eof_lexeme = record { type = eof; text = [] }

-- The lexemes that a result holds.
Holds : LexResult → List Lexeme → Type 0
Holds r ls = (toks : List Token) × (r ≡ lexed toks) × (map lexeme_of toks ≡ ls)

module _ (len : ℕ) where
  emit_step :
      (fuel : ℕ) (cur next : Cursor) (tok : Token) (out : List Token)
      → (length cur.rest == 0) ≡ false
      → round cur ≡ emit tok next
      → ltb (length out) max_tokens ≡ true
      → lex_from len (suc fuel) cur out ≡ lex_from len fuel next (out ++ (tok ∷ []))
  unfolding lex_from push
  emit_step fuel cur next tok out some_left e room = rw (some_left, lex_from) (rw e (rw room refl))

  skip_step :
      (fuel : ℕ) (cur next : Cursor) (out : List Token)
      → (length cur.rest == 0) ≡ false
      → round cur ≡ skip next
      → lex_from len (suc fuel) cur out ≡ lex_from len fuel next out
  unfolding lex_from
  skip_step fuel cur next out some_left e = rw (some_left, lex_from) (rw e refl)

  one_token :
      (fuel : ℕ) (cur next : Cursor) (tok : Token) (out : List Token) (more : Str)
      → 0 < length cur.rest
      → round cur ≡ emit tok next
      → next.rest ≡ b' ' ∷ more
      → length out < max_tokens
      → lex_from len (suc (suc fuel)) cur out
        ≡ lex_from len fuel (forward 1 next) (out ++ (tok ∷ []))
  one_token fuel cur next tok out more some_left e behind room =
      emit_step (suc fuel) cur next tok out (ground (arith, some_left)) e (ground (arith, room))
      ∙ skip_step fuel next (forward 1 next) (out ++ (tok ∷ []))
          (ground (arith, ap (length {A = ℕ}) behind)) (round-space next more behind)

  at_end :
      (fuel : ℕ) (cur : Cursor) (out : List Token)
      → cur.rest ≡ []
      → lex_from len fuel cur out ≡ finish len cur out
  unfolding lex_from
  at_end zero cur out e = refl
  at_end (suc fuel) cur out e = rw (e, lex_from) refl

  finish-Holds :
      (cur : Cursor) (out : List Token)
      → length out < max_tokens
      → Holds (finish len cur out) (map lexeme_of out ++ (eof_lexeme ∷ []))
  unfolding finish push Holds eof_token
  finish-Holds cur out room =
      let fits : ltb (length out) max_tokens ≡ true = ground (arith, room) in
      (
        out ++ (eof_token len cur ∷ []),
        rw fits refl,
        map-append lexeme_of out (eof_token len cur ∷ []),
      )

  lex_from-Holds :
      (ls : List Lexeme) (ws : List Str) (fuel : ℕ) (cur : Cursor) (out : List Token)
      → AllWritten ls ws
      → cur.rest ≡ spaced ws
      → length (spaced ws) ≤ fuel
      → length out + length ls < max_tokens
      → Holds (lex_from len fuel cur out) (map lexeme_of out ++ (ls ++ (eof_lexeme ∷ [])))
  unfolding AllWritten spaced
  lex_from-Holds [] [] fuel cur out h e enough room =
      subst (λ r. Holds r (map lexeme_of out ++ (eof_lexeme ∷ []))) (sym (at_end fuel cur out e))
        (finish-Holds cur out (omega arith))
  lex_from-Holds [] (w ∷ ws) fuel cur out h e enough room = absurd h
  lex_from-Holds (l ∷ ls) [] fuel cur out h e enough room = absurd h
  lex_from-Holds (l ∷ ls) (w ∷ ws) zero cur out h e enough room =
      absurd (omega (arith, length-append w (b' ' ∷ spaced ws)))
  lex_from-Holds (l ∷ ls) (w ∷ ws) (suc zero) cur out h e enough room =
      absurd (omega (arith, length-append w (b' ' ∷ spaced ws), Written-length l w h.0))
  lex_from-Holds (l ∷ ls) (w ∷ ws) (suc (suc fuel)) cur out h e enough room =
      let r : Reads cur l (b' ' ∷ spaced ws) = Written-Reads cur l w (spaced ws) h.0 e in
      let size : length (w ++ (b' ' ∷ spaced ws)) ≡ length w + suc (length (spaced ws)) =
        length-append w (b' ' ∷ spaced ws) in
      let step : lex_from len (suc (suc fuel)) cur out
          ≡ lex_from len fuel (forward 1 r.next) (out ++ (r.tok ∷ [])) =
        one_token fuel cur r.next r.tok out (spaced ws) (omega (arith, ap (length {A = ℕ}) e, size))
          r.by_round r.behind (omega arith) in
      let ih : Holds (lex_from len fuel (forward 1 r.next) (out ++ (r.tok ∷ [])))
          (map lexeme_of (out ++ (r.tok ∷ [])) ++ (ls ++ (eof_lexeme ∷ []))) =
        lex_from-Holds ls ws fuel (forward 1 r.next) (out ++ (r.tok ∷ [])) h.1
          (unfold forward in ap (drop 1) r.behind) (omega (arith, size, Written-length l w h.0))
          (omega (arith, length-append out (r.tok ∷ []))) in
      let whole : map lexeme_of (out ++ (r.tok ∷ [])) ++ (ls ++ (eof_lexeme ∷ []))
          ≡ map lexeme_of out ++ ((l ∷ ls) ++ (eof_lexeme ∷ [])) =
        ap (λ x. x ++ (ls ++ (eof_lexeme ∷ []))) (map-append lexeme_of out (r.tok ∷ []))
        ∙ append_assoc (map lexeme_of out) (lexeme_of r.tok ∷ []) (ls ++ (eof_lexeme ∷ []))
        ∙ ap (λ x. map lexeme_of out ++ (x ∷ (ls ++ (eof_lexeme ∷ [])))) r.same in
      subst (λ x. Holds x (map lexeme_of out ++ ((l ∷ ls) ++ (eof_lexeme ∷ [])))) (sym step)
        (subst (Holds (lex_from len fuel (forward 1 r.next) (out ++ (r.tok ∷ [])))) whole ih)

-- Up to 511 tokens of any kind, written one after the other with a space behind each, are lexed back
-- with their types and texts, and `eof` behind them: words, numbers and durations, strings and
-- regular expressions with or without escapes, and the symbols of one and of two bytes.
pub lex-spaced :
    (ls : List Lexeme) (ws : List Str)
    → AllWritten ls ws
    → length ls < max_tokens
    → (toks : List Token) × (lex (spaced ws) ≡ lexed toks)
      × (map lexeme_of toks ≡ ls ++ (eof_lexeme ∷ []))
unfolding lex Holds
lex-spaced ls ws h room =
    lex_from-Holds (length (spaced ws)) ls ws (length (spaced ws)) (start_cursor (spaced ws)) [] h
      refl (omega arith) (omega arith)
