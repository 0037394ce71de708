-- ===== src/Select.antt =====
-- src/runtime/route_select.cc: whether a set of route paths needs dispatch by segments.
pub mod Params
pub mod Overlap
mod Tests
use route_lang.Common.{
  ℕ, zero, suc, ◌+◌, Bool, true, false, ◌&&◌, ◌||◌, not, List, [], ◌∷◌, leb, ◌==◌, if◌then◌else◌,
  length, get_or,
}
use route_lang.Tokens.{Str}
use route_lang.Canon.{finalize_path_canonical}

-- The loop of `is_strict_byte_prefix` over the bytes of `a`.
unfoldable pub prefix_bytes : Str → Str → Bool
prefix_bytes [] b = true
prefix_bytes (x ∷ a) [] = false
prefix_bytes (x ∷ a) (y ∷ b) = let rest = prefix_bytes a b in if not (x == y) then false else rest

unfoldable pub is_strict_byte_prefix : Str → Str → Bool
unfolding prefix_bytes
is_strict_byte_prefix a b = if leb (length b) (length a) then false else prefix_bytes a b

unfoldable pub boundary_sensitive_after_prefix : Str → Str → Bool
boundary_sensitive_after_prefix shorter longer =
    if length shorter == 0 then false else not (get_or longer (length shorter) 0 == b'/')

-- The loop of `path_has_param_segment`, with `at_segment_start`.
unfoldable pub has_param_from : Bool → Str → Bool
has_param_from at_segment_start [] = false
has_param_from at_segment_start (c ∷ path) =
    let behind_slash = has_param_from true path in
    let inside = has_param_from false path in
    if c == b'/' then behind_slash else if at_segment_start && c == b':' then true else inside

unfoldable pub path_has_param_segment : Str → Bool
unfolding has_param_from
path_has_param_segment path = has_param_from true path

-- The inner body for the canonical paths `a` and `b`.
unfoldable pub overlap : Str → Str → Bool
unfolding is_strict_byte_prefix boundary_sensitive_after_prefix
overlap a b =
    if is_strict_byte_prefix a b
    then boundary_sensitive_after_prefix a b
    else if is_strict_byte_prefix b a
    then boundary_sensitive_after_prefix b a
    else false

-- The inner loop.
unfoldable pub overlaps_any : Str → List Str → Bool
unfolding overlap
overlaps_any path [] = false
overlaps_any path (other ∷ paths) =
    let rest = overlaps_any path paths in
    if overlap (finalize_path_canonical path) (finalize_path_canonical other) then true else rest

unfoldable pub has_boundary_sensitive_overlap : List Str → Bool
unfolding overlaps_any
has_boundary_sensitive_overlap [] = false
has_boundary_sensitive_overlap (path ∷ paths) =
    let rest = has_boundary_sensitive_overlap paths in
    if overlaps_any path paths then true else rest

-- The loop over the parameters.
unfoldable pub any_has_param : List Str → Bool
unfolding path_has_param_segment
any_has_param [] = false
any_has_param (path ∷ paths) =
    let rest = any_has_param paths in if path_has_param_segment path then true else rest

unfoldable pub needs_segment_aware : List Str → Bool
unfolding any_has_param has_boundary_sensitive_overlap
needs_segment_aware paths =
    if any_has_param paths then true else has_boundary_sensitive_overlap paths
