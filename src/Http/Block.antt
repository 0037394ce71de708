-- ===== src/Http/Block.antt =====
-- The loop over the header lines, which the request and the response parser share but for what
-- they do with a header: `store name value` is the new output, or `none` for Error.
pub mod Space
pub mod Grammar
pub mod Sound
use route_lang.Common.{
  ℕ, zero, suc, ◌+◌, ◌-◌, ◌<◌, Bool, true, false, ◌&&◌, ◌||◌, not, Option, none, some, List, [],
  ◌∷◌, ◌++◌, ltb, leb, ◌==◌, if◌then◌else◌, length, drop, take, get_or,
}
use route_lang.Tokens.{Str}
use route_lang.Http.{Parsed, complete, incomplete, error}
use route_lang.Http.Scan.{
  Scan, found, invalid, ran_out, scan_header_name, scan_header_value, find_header_end,
}

abbrev pub is_ows : ℕ → Bool
is_ows c = c == b' ' || c == b'\t'

-- `while (pos < len && (buf[pos] == ' ' || buf[pos] == '\t')) pos++`.
unfoldable pub skip_ows : List ℕ → List ℕ
skip_ows [] = []
skip_ows (c ∷ rest) = if is_ows c then skip_ows rest else c ∷ rest

-- One space, then the loop.
unfoldable pub skip_value_ows : List ℕ → List ℕ
skip_value_ows [] = []
skip_value_ows (c ∷ rest) = if c == b' ' then skip_ows rest else skip_ows (c ∷ rest)

-- The length of the value without the spaces and tabs at its end.
unfoldable pub trim_ows : Str → ℕ → ℕ
trim_ows v zero = zero
trim_ows v (suc n) = let rest = trim_ows v n in if is_ows (get_or v n 0) then rest else suc n

-- The loop runs only if the last byte is a space or less.
unfoldable pub trimmed : Str → Str
trimmed v =
    if ltb 0 (length v) && leb (get_or v (length v - 1) 0) b' '
    then take (trim_ows v (length v)) v
    else v

-- The label `maybe_incomplete`: Error if the buffer has a blank line, else Incomplete.
unfoldable pub maybe_incomplete {ℓ} : {A : Type ℓ} → List ℕ → Parsed A
maybe_incomplete buf = if ltb 0 (find_header_end buf 0) then error else incomplete

module _ {ℓ} {A : Type ℓ} (store : Str → Str → A → Option A) (buf : List ℕ) where
  -- The value of a header, from `\r` on: `\n` has to follow.
  pub parse_value : Str → Str → List ℕ → A → (List ℕ → A → Parsed A) → Parsed A
  parse_value name v [] a next = maybe_incomplete buf
  parse_value name v (c ∷ []) a next = maybe_incomplete buf
  parse_value name v (c ∷ d ∷ rest) a next =
      if d == b'\n'
      then elim (store name (trimmed v) a) [ none ↦ error | some a' ↦ next rest a' ]
      else error

  pub parse_scanned : Str → Scan → A → (List ℕ → A → Parsed A) → Parsed A
  unfolding parse_value
  parse_scanned name invalid a next = error
  parse_scanned name ran_out a next = maybe_incomplete buf
  parse_scanned name (found v from) a next = parse_value name v from a next

  -- From the value on.
  pub parse_behind : Str → List ℕ → A → (List ℕ → A → Parsed A) → Parsed A
  unfolding parse_scanned
  parse_behind name [] a next = maybe_incomplete buf
  parse_behind name (c ∷ rest) a next = parse_scanned name (scan_header_value (c ∷ rest)) a next

  -- A line from its name on.
  pub parse_named : Scan → A → (List ℕ → A → Parsed A) → Parsed A
  unfolding parse_behind
  parse_named ran_out a next = maybe_incomplete buf
  parse_named invalid a next = maybe_incomplete buf
  parse_named (found [] from) a next = error
  parse_named (found (n ∷ name) from) a next =
      parse_behind (n ∷ name) (skip_value_ows (drop 1 from)) a next

  -- The loop, from `pos` on. A line has four bytes at least, so the length is fuel enough; with none
  -- left there are no two bytes left.
  unfoldable pub parse_headers : ℕ → List ℕ → A → Parsed A
  unfolding parse_named
  parse_headers zero pos a = incomplete
  parse_headers (suc fuel) [] a = incomplete
  parse_headers (suc fuel) (c ∷ []) a = incomplete
  parse_headers (suc fuel) (c ∷ d ∷ rest) a = elim (c == b'\r') [
    | true ↦ if d == b'\n' then complete a rest else error
    | false ↦ parse_named (scan_header_name (c ∷ d ∷ rest)) a (parse_headers fuel)
  ]
