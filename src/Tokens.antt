-- ===== src/Tokens.antt =====
-- `RouteTrie::tokenize_segments` of src/runtime/route_trie.cc. A `Str` is the list of its bytes.
pub mod Segments
pub mod Slashes
use route_lang.Common.{
  ℕ, ◌+◌, ◌<◌, Bool, true, false, ◌&&◌, Option, none, some, List, [], ◌∷◌, ◌++◌, ltb, ◌==◌,
  if◌then◌else◌, length,
}

abbrev pub Str : Type 0
Str = List ℕ

abbrev pub max_path_segments : ℕ
max_path_segments = 64

-- `out`, and whether the sentinel `kMaxPathSegments + 1` was returned in place of its length.
pub record Tokens : Type 0 where
  pub segs : List Str
  pub overflow : Bool

-- `if (i > start)` push the bytes from `start` to `i`; `none` if `out` is full.
pub push_segment : Str → List Str → Option (List Str)
push_segment [] out = some out
push_segment (c ∷ cur) out =
    if ltb (length out) max_path_segments then some (out ++ ((c ∷ cur) ∷ [])) else none

-- The loop, where `cur` is the bytes from `start` to `i` and the list is the bytes from `i` on.
pub tokenize_from : Str → Str → List Str → Tokens
unfolding push_segment
tokenize_from cur [] out = elim (push_segment cur out) [
  | none ↦ record { segs = out; overflow = true }
  | some out' ↦ record { segs = out'; overflow = false }
]
tokenize_from cur (c ∷ rest) out = elim (c == b'/') [
  | false ↦ tokenize_from (cur ++ (c ∷ [])) rest out
  | true ↦ elim (push_segment cur out) [
    | none ↦ record { segs = out; overflow = true }
    | some out' ↦ tokenize_from [] rest out'
  ]
]

unfoldable pub tokenize_segments : Str → Tokens
unfolding tokenize_from
tokenize_segments path = tokenize_from [] path []
