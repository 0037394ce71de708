-- ===== src/Select/Params.antt =====
-- path_has_param_segment and the segments that the trie gets from a path.
use route_lang.Common.{
  ℕ, ◌≡◌, ◌==◌, ◌||◌, refl, ap, sym, ◌∙◌, Bool, true, false, List, [], ◌∷◌, ◌++◌, arith, length,
  Bool-cases, inl, inr,
}
use route_lang.Tokens.{Str}
use route_lang.Tokens.Segments.{pieces, non_empty, segments}
use route_lang.Trie.{is_param_segment}
use route_lang.Select.{has_param_from, path_has_param_segment}

abbrev pub any_param : List Str → Bool
any_param [] = false
any_param (s ∷ ss) = is_param_segment s || any_param ss

pieces-slash :
    (cur : Str) (c : ℕ) (path : Str)
    → (c == b'/') ≡ true
    → pieces cur (c ∷ path) ≡ cur ∷ pieces [] path
unfolding pieces
pieces-slash cur c path h = rw (h, pieces) refl

pieces-other :
    (cur : Str) (c : ℕ) (path : Str)
    → (c == b'/') ≡ false
    → pieces cur (c ∷ path) ≡ pieces (cur ++ (c ∷ [])) path
unfolding pieces
pieces-other cur c path h = rw (h, pieces) refl

abbrev param_in : List Str → Bool
param_in ss = any_param (non_empty ss)

-- A segment that begins with a colon.
found :
    (cur path : Str) → is_param_segment cur ≡ true → any_param (non_empty (pieces cur path)) ≡ true
unfolding pieces non_empty is_param_segment
found [] path h = absurd (ground (arith, h))
found (x ∷ cur) [] h = ground (arith, h)
found (x ∷ cur) (c ∷ path) h = elim (Bool-cases (c == b'/')) [
  | inl slash ↦ ap param_in (pieces-slash (x ∷ cur) c path slash) ∙ ground (arith, h)
  | inr other ↦
      ap param_in (pieces-other (x ∷ cur) c path other) ∙ found (x ∷ (cur ++ (c ∷ []))) path h
]

has_param_from-pieces :
    (cur path : Str)
    → is_param_segment cur ≡ false
    → has_param_from (length cur == 0) path ≡ any_param (non_empty (pieces cur path))
unfolding pieces non_empty is_param_segment has_param_from
has_param_from-pieces [] [] h = refl
has_param_from-pieces (x ∷ cur) [] h = ground (arith, h)
has_param_from-pieces [] (c ∷ path) h = elim (Bool-cases (c == b'/')) [
  | inl slash ↦
      rw slash (has_param_from-pieces [] path refl)
      ∙ sym (ap param_in (pieces-slash [] c path slash))
  | inr other ↦ elim (Bool-cases (c == b':')) [
    | inl colon ↦
        ground (arith, other, colon)
        ∙ sym (ap param_in (pieces-other [] c path other) ∙ found (c ∷ []) path colon)
    | inr plain ↦
        ground (arith, other, plain)
        ∙ has_param_from-pieces (c ∷ []) path plain
        ∙ sym (ap param_in (pieces-other [] c path other))
  ]
]
has_param_from-pieces (x ∷ cur) (c ∷ path) h = elim (Bool-cases (c == b'/')) [
  | inl slash ↦
      ground (arith, slash)
      ∙ has_param_from-pieces [] path refl
      ∙ sym (ap param_in (pieces-slash (x ∷ cur) c path slash) ∙ ground (arith, h))
  | inr other ↦
      ground (arith, other)
      ∙ has_param_from-pieces (x ∷ (cur ++ (c ∷ []))) path h
      ∙ sym (ap param_in (pieces-other (x ∷ cur) c path other))
]

-- A path has a parameter segment exactly if one of its segments between slashes begins with a colon.
pub path_has_param_segment-segments :
    (path : Str) → path_has_param_segment path ≡ any_param (segments path)
unfolding path_has_param_segment segments is_param_segment
path_has_param_segment-segments path = has_param_from-pieces [] path refl
