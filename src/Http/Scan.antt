-- ===== src/Http/Scan.antt =====
-- The scanners of src/runtime/simd/scalar.cc with their tables, src/runtime/simd/char_tables.h.
-- A position that a scanner returns is given as the bytes before it and those from it on.
pub mod Found
pub mod Target
use route_lang.Common.{
  ℕ, zero, suc, ◌+◌, ◌-◌, ◌<◌, Bool, true, false, ◌&&◌, ◌||◌, not, Option, none, some, List, [],
  ◌∷◌, ◌++◌, ltb, leb, ◌==◌, if◌then◌else◌, length, drop, get_or,
}
use route_lang.Tokens.{Str}
use route_lang.Http.Tables.{token_table, header_value_table, uri_table}

-- The position of the byte that ends a scan, -1 for a byte that is not valid, or the end.
pub data Scan : Type 0 where
  found : Str → List ℕ → Scan
  invalid ran_out : Scan

-- One more valid byte before the position.
abbrev pub after_byte : ℕ → Scan → Scan
after_byte c (found before rest) = found (c ∷ before) rest
after_byte c invalid = invalid
after_byte c ran_out = ran_out

unfoldable pub scan_header_value : List ℕ → Scan
scan_header_value [] = ran_out
scan_header_value (c ∷ rest) =
    if c == b'\r'
    then found [] (c ∷ rest)
    else if header_value_table c
    then after_byte c (scan_header_value rest)
    else invalid

-- -1 stands for the end of the buffer here too.
unfoldable pub scan_header_name : List ℕ → Scan
scan_header_name [] = invalid
scan_header_name (c ∷ rest) =
    if c == b':'
    then found [] (c ∷ rest)
    else if token_table c
    then after_byte c (scan_header_name rest)
    else invalid

-- A position of a space with the bytes before `canon_end`.
pub data UriScan : Type 0 where
  found_uri : Str → Str → List ℕ → UriScan
  invalid_uri no_space : UriScan

-- The loop: `seen` are the bytes before the position, `canon` those before the first `?` or `#`.
unfoldable pub scan_uri_from : Str → Option Str → List ℕ → UriScan
scan_uri_from seen canon [] = no_space
scan_uri_from seen canon (c ∷ rest) =
    let next : Option Str = elim canon [
      | some s ↦ some s
      | none ↦ if c == b'?' || c == b'#' then some seen else none
    ] in
    if c == b' '
    then found_uri seen (elim canon [ some s ↦ s | none ↦ seen ]) (c ∷ rest)
    else if uri_table c
    then scan_uri_from (seen ++ (c ∷ [])) next rest
    else invalid_uri

unfoldable pub scan_uri : List ℕ → UriScan
unfolding scan_uri_from
scan_uri buf = scan_uri_from [] none buf

-- The four bytes at the position of the loop are "\r\n\r\n".
abbrev pub at_blank_line : List ℕ → Bool
at_blank_line buf =
    ltb 3 (length buf)
    && (get_or buf 0 0 == b'\r'
        && (get_or buf 1 0 == b'\n' && (get_or buf 2 0 == b'\r' && get_or buf 3 0 == b'\n')))

-- The loop at position `i`; 0 is that there is none.
unfoldable pub find_from : ℕ → List ℕ → ℕ
find_from i [] = 0
find_from i (c ∷ rest) = if at_blank_line (c ∷ rest) then i + 4 else find_from (i + 1) rest

unfoldable pub find_header_end : List ℕ → ℕ → ℕ
unfolding find_from
find_header_end buf from =
    let start : ℕ = if ltb 3 from then from - 3 else 0 in find_from start (drop start buf)
