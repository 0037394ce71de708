-- ===== src/Tokens/Slashes.antt =====
-- Slashes at both ends of a path make no segment.
use route_lang.Common.{ℕ, zero, suc, ◌≡◌, refl, ◌∙◌, [], ◌∷◌, ◌++◌, replicate, arith}
use route_lang.Tokens.{Str}
use route_lang.Tokens.Segments.{pieces, non_empty, segments, from_slashes}

from_slashes_only : (k : ℕ) → non_empty (pieces [] (replicate k b'/')) ≡ []
unfolding pieces non_empty
from_slashes_only zero = refl
from_slashes_only (suc k) = from_slashes_only k

pieces-trailing :
    (k : ℕ) (cur path : Str)
    → non_empty (pieces cur (path ++ replicate k b'/')) ≡ non_empty (pieces cur path)
unfolding pieces non_empty
pieces-trailing zero cur [] = refl
pieces-trailing (suc k) [] [] = from_slashes_only k
pieces-trailing (suc k) (x ∷ cur) [] = ground (arith, from_slashes_only k)
pieces-trailing k [] (c ∷ path) =
    ground (arith, pieces-trailing k [] path, pieces-trailing k (c ∷ []) path)
pieces-trailing k (x ∷ cur) (c ∷ path) =
    ground (arith, pieces-trailing k [] path, pieces-trailing k (x ∷ (cur ++ (c ∷ []))) path)

pub segments-slashes :
    (j k : ℕ) (path : Str)
    → segments (replicate j b'/' ++ (path ++ replicate k b'/')) ≡ segments path
unfolding segments
segments-slashes j k path = from_slashes j (path ++ replicate k b'/') ∙ pieces-trailing k [] path
