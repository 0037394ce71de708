-- ===== src/Lexer/Tests.antt =====
-- The lexer on small sources.
use route_lang.Common.{◌≡◌, ◌≤◌, refl, arith, map, List, [], ◌∷◌, ◌++◌, length, codes}
use route_lang.Tokens.{Str}
use route_lang.Trie.{str_eq}
use route_lang.Lexer.{
  TokenType, ident, kw_route, int_lit, dur_lit, string_lit, regex_lit, arrow, l_brace, eof, lexed,
  lex, Token, max_tokens, is_ident_start, is_ident_continue, is_digit, symbol_type, start_cursor,
}
use route_lang.Lexer.Runs.{Runs, lex-Runs, lex-AllPlaced}
use route_lang.Lexer.Placed.{AllPlaced}
use route_lang.Lexer.Print.{
  Lexeme, lexeme_of, a_word, a_number, a_string, a_regex, a_symbol, a_pair, inside, no_unit,
  milliseconds, hours, fat_arrow,
}
use route_lang.Lexer.RoundTrip.{spaced, AllWritten, eof_lexeme, lex-spaced}

abbrev source : Str
source = codes "route // r\n 50ms"

abbrev source_tokens : List Token
source_tokens =
    record { type = kw_route; text = codes "route"; start = 0; end = 5; line = 1; col = 1 }
    ∷ record { type = dur_lit; text = codes "50ms"; start = 12; end = 16; line = 2; col = 2 }
    ∷ record { type = eof; text = []; start = 16; end = 16; line = 2; col = 6 }
    ∷ []

lex-source : lex source ≡ lexed source_tokens
unfolding lex str_eq
lex-source = refl

lex-AllPlaced_example : AllPlaced source 0 source_tokens × (length source_tokens ≤ max_tokens)
lex-AllPlaced_example = lex-AllPlaced source source_tokens lex-source

lex-Runs_example : Runs (length source) (start_cursor source) [] (lex source)
lex-Runs_example = lex-Runs source

-- A newline behind a backslash is not counted: the number stands on the second line.
escaped_newline :
    lex (codes "\"\\\n\" 7")
    ≡ lexed (
        record { type = string_lit; text = codes "\\\n"; start = 1; end = 3; line = 1; col = 2 }
        ∷ record { type = int_lit; text = codes "7"; start = 5; end = 6; line = 1; col = 6 }
        ∷ record { type = eof; text = []; start = 6; end = 6; line = 1; col = 7 }
        ∷ [])
unfolding lex
escaped_newline = refl

abbrev texts : List Str
texts =
    codes "route"
    ∷ codes "7"
    ∷ codes "15ms"
    ∷ codes "5h"
    ∷ codes "\"a \\\"\""
    ∷ codes "re\"a.\""
    ∷ codes "{"
    ∷ codes "=>"
    ∷ []

abbrev lexemes : List Lexeme
lexemes =
    record { type = kw_route; text = codes "route" }
    ∷ record { type = int_lit; text = codes "7" }
    ∷ record { type = dur_lit; text = codes "15ms" }
    ∷ record { type = dur_lit; text = codes "5h" }
    ∷ record { type = string_lit; text = codes "a \\\"" }
    ∷ record { type = regex_lit; text = codes "a." }
    ∷ record { type = l_brace; text = codes "{" }
    ∷ record { type = arrow; text = codes "=>" }
    ∷ []

texts-AllWritten : AllWritten lexemes texts
unfolding AllWritten is_ident_start is_ident_continue is_digit str_eq symbol_type inside
    route_lang.Lexer.keyword_type
texts-AllWritten = (
  a_word b'r' (codes "oute") refl (refl, (refl, (refl, (refl, tt)))),
  (
    a_number b'7' [] [] int_lit refl tt no_unit,
    (
      a_number b'1' (codes "5") (codes "ms") dur_lit refl (refl, tt) milliseconds,
      (
        a_number b'5' [] (codes "h") dur_lit refl tt hours,
        (
          a_string (codes "a \\\"") refl,
          (
            a_regex (codes "a.") refl,
            (a_symbol b'{' l_brace refl, (a_pair b'=' b'>' arrow fat_arrow, tt)),
          ),
        ),
      ),
    ),
  ),
)

lex-spaced_example :
    (toks : List Token) × (lex (spaced texts) ≡ lexed toks)
    × (map lexeme_of toks ≡ lexemes ++ (eof_lexeme ∷ []))
lex-spaced_example = lex-spaced lexemes texts texts-AllWritten (omega arith)
