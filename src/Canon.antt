-- ===== src/Canon.antt =====
-- include/rut/runtime/route_canon.h: the path of a request as the dispatch takes it. A null
-- pointer and the empty view are the empty list.
pub mod Canonical
mod Tests
use route_lang.Common.{
  ℕ, zero, suc, true, ◌||◌, List, [], ◌∷◌, ◌==◌, if◌then◌else◌, length, get_or, take,
}
use route_lang.Tokens.{Str}

-- The bytes from `lo` on, after the loop over the leading slashes.
pub skip_slashes : Str → Str
skip_slashes [] = []
skip_slashes (c ∷ s) = if c == b'/' then skip_slashes s else c ∷ s

-- `hi - lo` after the loop over the trailing slashes of the bytes from `lo` on.
pub trim_end : Str → ℕ → ℕ
trim_end s zero = zero
trim_end s (suc n) = let rest = trim_end s n in if get_or s n 0 == b'/' then rest else suc n

unfoldable pub finalize_path_canonical : Str → Str
unfolding skip_slashes trim_end
finalize_path_canonical s = let t : Str = skip_slashes s in take (trim_end t (length t)) t

-- The bytes before the first `?` or `#`.
unfoldable pub cut_query : Str → Str
cut_query [] = []
cut_query (c ∷ s) = if c == b'?' || c == b'#' then [] else c ∷ cut_query s

unfoldable pub canonicalize_request : Str → Str
unfolding cut_query
canonicalize_request path = finalize_path_canonical (cut_query path)
