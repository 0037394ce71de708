-- ===== src/Lexer/Runs.antt =====
-- The loop of `lex` as a relation, without fuel, and its tokens.
use route_lang.Common.{
  ℕ, zero, suc, ◌≤◌, ◌<◌, ◌≡◌, ◌==◌, refl, ap, sym, subst, ◌∙◌, true, List, [], ◌∷◌, ◌++◌, length,
  length-append, length-drop, arith, inl, inr, Bool-cases, ltb,
}
use mathlib.Core.List.{append_assoc}
use route_lang.Tokens.{Str}
use route_lang.Lexer.{
  Token, max_tokens, Cursor, Round, skip, emit, fail, Diagnostic, too_many_tokens, token_span,
  round, LexResult, lexed, failed, push, finish, eof_token, lex_from, start_cursor, lex,
}
use route_lang.Lexer.Position.{walk}
use route_lang.Lexer.Rounds.{Step}
use route_lang.Lexer.Placed.{
  skip-Step, emit-Covers, At, Placed, AllPlaced, Step-At, rest-length, Covers-Placed,
}

-- `while (pos < source.len)`: rounds to the end of the source, to an error of a round, or to a token
-- that finds no room.
pub data Runs (len : ℕ) : Cursor → List Token → LexResult → Type 0 where
  done :
      (cur : Cursor) (out : List Token)
      → length cur.rest ≡ 0
      → Runs len cur out (finish len cur out)
  skips :
      (cur next : Cursor) (out : List Token) (r : LexResult)
      → 0 < length cur.rest
      → round cur ≡ skip next
      → Runs len next out r
      → Runs len cur out r
  emits :
      (cur next : Cursor) (tok : Token) (out : List Token) (r : LexResult)
      → 0 < length cur.rest
      → round cur ≡ emit tok next
      → length out < max_tokens
      → Runs len next (out ++ (tok ∷ [])) r
      → Runs len cur out r
  full :
      (cur next : Cursor) (tok : Token) (out : List Token)
      → 0 < length cur.rest
      → round cur ≡ emit tok next
      → max_tokens ≤ length out
      → Runs len cur out
          (failed (record { code = too_many_tokens; span = token_span tok; detail = [] }))
  fails :
      (cur : Cursor) (d : Diagnostic) (out : List Token)
      → 0 < length cur.rest
      → round cur ≡ fail d
      → Runs len cur out (failed d)

lex_from-Runs :
    (len fuel : ℕ) (cur : Cursor) (out : List Token)
    → length cur.rest ≤ fuel
    → Runs len cur out (lex_from len fuel cur out)
unfolding lex_from
lex_from-Runs len zero cur out h = done cur out (omega arith)
lex_from-Runs len (suc fuel) cur out h = elim (Bool-cases (length cur.rest == 0)) [
  | inl empty ↦ rw (empty, lex_from) (done cur out (ground (arith, empty)))
  | inr more ↦
      let some_left : 0 < length cur.rest = ground (arith, more) in
      rw (more, lex_from) (by_round (lex_from-Runs len fuel) some_left (round cur) refl)
]
  where
    less : (next : Cursor) (n : ℕ) → Step cur next n → length next.rest ≤ fuel
    less next n s =
        omega (arith, ap (length {A = ℕ}) s.rest, length-drop n cur.rest, s.some_byte, s.fits)

    by_round :
        ((next : Cursor) (out' : List Token)
          → length next.rest ≤ fuel
          → Runs len next out' (lex_from len fuel next out'))
        → 0 < length cur.rest
        → (r : Round) → round cur ≡ r
        → Runs len cur out (elim r [
          | skip next ↦ lex_from len fuel next out
          | emit tok next ↦ push out tok (λ out'. lex_from len fuel next out')
          | fail d ↦ failed d
        ])
    by_round ih some_left (skip next) e =
        skips cur next out (lex_from len fuel next out) some_left e (
          ih next out
            (less next (skip-Step cur next some_left e).0 (skip-Step cur next some_left e).1))
    by_round ih some_left (emit tok next) e = elim (Bool-cases (ltb (length out) max_tokens)) [
      | inl room ↦
          unfold push in
          rw room (
            emits cur next tok out (lex_from len fuel next (out ++ (tok ∷ []))) some_left e
              (ground (arith, room))
              (ih next (out ++ (tok ∷ [])) (
                less next (emit-Covers cur next some_left tok e).0
                  (emit-Covers cur next some_left tok e).1)))
      | inr no_room ↦
          unfold push in rw no_room (full cur next tok out some_left e (ground (arith, no_room)))
    ]
    by_round ih some_left (fail d) e = fails cur d out some_left e

-- What the loop adds to `out` is placed from the cursor on.
Added : Str → ℕ → List Token → List Token → Type 0
Added source from out toks =
    (new : List Token) × (toks ≡ out ++ new)
    × AllPlaced source from new
    × (length toks ≤ max_tokens)

AllPlaced-first :
    (source : Str) (from : ℕ) (tok : Token) (new : List Token)
    → Placed source from tok
    → AllPlaced source tok.end new
    → AllPlaced source from (tok ∷ new)
unfolding AllPlaced
AllPlaced-first source from tok [] p h = absurd h
AllPlaced-first source from tok (next ∷ more) p h = (p, h)

-- The lexer comes to the end of its loop on every source: the rounds that it makes lead to what it
-- returns.
pub lex-Runs : (source : Str) → Runs (length source) (start_cursor source) [] (lex source)
unfolding lex
lex-Runs source =
    lex_from-Runs (length source) (length source) (start_cursor source) [] (omega arith)

eof-Placed :
    (source : Str) (cur : Cursor) (from : ℕ)
    → At source cur
    → from ≤ cur.pos
    → length cur.rest ≡ 0
    → Placed source from (eof_token (length source) cur)
unfolding eof_token walk
eof-Placed source cur from a h e =
    let here : cur.pos ≡ length source = omega (arith, rest-length source cur a, e) in
    Covers-Placed source cur a from (eof_token (length source) cur) 0 0 0 h (omega arith)
      (omega arith)
      (record { start = omega (arith, here); end = omega (arith, here); text = refl; place = refl })

finish-Added :
    (source : Str) (cur : Cursor) (out toks : List Token) (from : ℕ)
    → At source cur
    → from ≤ cur.pos
    → length cur.rest ≡ 0
    → finish (length source) cur out ≡ lexed toks
    → Added source from out toks
unfolding finish push Added AllPlaced
finish-Added source cur out toks from a h e r = elim (Bool-cases (ltb (length out) max_tokens)) [
  | inr no_room ↦ absurd (ground (arith, r, no_room))
  | inl room ↦
      let last : Token = eof_token (length source) cur in
      let t : toks ≡ out ++ (last ∷ []) = sym (ground (arith, r, room)) in
      (
        last ∷ [],
        t,
        (refl, refl, eof-Placed source cur from a h e),
        omega (arith, ap (length {A = Token}) t, length-append out (last ∷ []), room_le room),
      )
]
  where
    room_le : ltb (length out) max_tokens ≡ true → length out < max_tokens
    room_le q = ground (arith, q)

Runs-Added :
    (source : Str) (cur : Cursor) (out : List Token) (r : LexResult)
    → Runs (length source) cur out r
    → (from : ℕ) (toks : List Token) → At source cur
    → from ≤ cur.pos
    → r ≡ lexed toks
    → Added source from out toks
unfolding Added
Runs-Added source _ _ _ (done cur out e) from toks a h q =
    finish-Added source cur out toks from a h e q
Runs-Added source _ _ _ (skips cur next out r some_left e more) from toks a h q =
    let s : (n : ℕ) × Step cur next n = skip-Step cur next some_left e in
    Runs-Added source next out r more from toks (Step-At source cur a next s.0 s.1)
      (omega (arith, s.1.pos)) q
Runs-Added source _ _ _ (emits cur next tok out r some_left e room more) from toks a h q =
    let (n, s, (k, m, le, c)) = emit-Covers cur next some_left tok e in
    let (new, t, placed, few) =
      Runs-Added source next (out ++ (tok ∷ [])) r more tok.end toks (Step-At source cur a next n s)
        (omega (arith, s.pos, c.end, le)) q in
    (
      tok ∷ new,
      t ∙ append_assoc out (tok ∷ []) new,
      AllPlaced-first source from tok new (Covers-Placed source cur a from tok k m n h le s.fits c)
          placed,
      few,
    )
Runs-Added source _ _ _ (full cur next tok out some_left e room) from toks a h q =
    absurd (ground (arith, q))
Runs-Added source _ _ _ (fails cur d out some_left e) from toks a h q = absurd (ground (arith, q))

start-At : (source : Str) → At source (start_cursor source)
unfolding walk
start-At source = record { inside = omega arith; rest = refl; place = λ p. refl }

-- The tokens of a source that is lexed are at most 512 and lie in it one behind the other, the last
-- one `eof` at its end: each has the text between its start and its end, and, in a source with no
-- newline behind a backslash, the line and the column of its start.
pub lex-AllPlaced :
    (source : Str) (toks : List Token)
    → lex source ≡ lexed toks
    → AllPlaced source 0 toks × (length toks ≤ max_tokens)
unfolding Added
lex-AllPlaced source toks e =
    let (new, t, placed, few) =
      Runs-Added source (start_cursor source) [] (lex source) (lex-Runs source) 0 toks
        (start-At source) (omega arith) e in
    (subst (AllPlaced source 0) (sym t) placed, few)
