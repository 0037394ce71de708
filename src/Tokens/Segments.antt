-- ===== src/Tokens/Segments.antt =====
-- What the tokenizer computes: the non-empty runs of bytes between slashes.
use route_lang.Common.{
  ℕ, zero, suc, ◌+◌, ◌-◌, ◌≤◌, ◌<◌, ◌≡◌, ◌≢◌, refl, ap, ◌∙◌, true, false, List, [], ◌∷◌, ◌++◌, ltb,
  ◌==◌, length, take, replicate, All, arith, length-append, take-length, take-cons,
}
use mathlib.Core.List.{append_assoc, append-nil}
use route_lang.Tokens.{Str, max_path_segments, Tokens, tokenize_from, tokenize_segments}

-- The runs of bytes between slashes, empty ones included, where `cur` is the first one so far.
unfoldable pub pieces : Str → Str → List Str
pieces cur [] = cur ∷ []
pieces cur (c ∷ rest) = elim (c == b'/') [
  | true ↦ cur ∷ pieces [] rest
  | false ↦ pieces (cur ++ (c ∷ [])) rest
]

unfoldable pub non_empty : List Str → List Str
non_empty [] = []
non_empty ([] ∷ ss) = non_empty ss
non_empty ((c ∷ s) ∷ ss) = (c ∷ s) ∷ non_empty ss

unfoldable pub segments : Str → List Str
segments path = non_empty (pieces [] path)

-- The first segments that fit behind `out`, and whether some did not.
abbrev fitted : List Str → List Str → Tokens
fitted out ss = record {
  segs = out ++ take (max_path_segments - length out) ss;
  overflow = ltb max_path_segments (length out + length ss);
}

take-nil : (n : ℕ) → take {A = Str} n [] ≡ []
take-nil zero = refl
take-nil (suc n) = refl

fitted-room :
    (out : List Str) (s : Str) (ss : List Str)
    → length out < max_path_segments
    → fitted (out ++ (s ∷ [])) ss ≡ fitted out (s ∷ ss)
fitted-room out s ss h = ground (
  arith,
  length-append out (s ∷ []),
  append_assoc out (s ∷ []) (take (max_path_segments - length out - 1) ss),
  take-cons (max_path_segments - length out) s ss,
  shorter,
)
  where
    shorter : max_path_segments - (length out + 1) ≡ max_path_segments - length out - 1
    shorter = omega arith

fitted-full :
    (out : List Str) (s : Str) (ss : List Str)
    → length out ≡ max_path_segments
    → fitted out (s ∷ ss) ≡ record { segs = out; overflow = true }
fitted-full out s ss h = rw h (ground (arith, append-nil out))

tokenize_from-pieces :
    (cur path : Str) (out : List Str)
    → length out ≤ max_path_segments
    → tokenize_from cur path out ≡ fitted out (non_empty (pieces cur path))
unfolding tokenize_from pieces non_empty
tokenize_from-pieces [] [] out h =
    ground (arith, take-nil (max_path_segments - length out), append-nil out)
tokenize_from-pieces (x ∷ cur) [] out h = ground (
  arith,
  fitted-room out (x ∷ cur) [],
  fitted-full out (x ∷ cur) [],
  take-nil (max_path_segments - length (out ++ ((x ∷ cur) ∷ []))),
  append-nil (out ++ ((x ∷ cur) ∷ [])),
  length-append out ((x ∷ cur) ∷ []),
)
tokenize_from-pieces [] (c ∷ path) out h =
    ground (arith, tokenize_from-pieces [] path out h, tokenize_from-pieces (c ∷ []) path out h)
tokenize_from-pieces (x ∷ cur) (c ∷ path) out h = ground (
  arith,
  fitted-room out (x ∷ cur) (non_empty (pieces [] path)),
  fitted-full out (x ∷ cur) (non_empty (pieces [] path)),
  length-append out ((x ∷ cur) ∷ []),
  tokenize_from-pieces [] path (out ++ ((x ∷ cur) ∷ [])),
  tokenize_from-pieces (x ∷ (cur ++ (c ∷ []))) path out h,
)

-- The tokenizer returns the first 64 non-empty runs of bytes between slashes, and the sentinel
-- exactly when there are more.
pub tokenize_segments-segments :
    (path : Str)
    → tokenize_segments path ≡ record {
      segs = take max_path_segments (segments path);
      overflow = ltb max_path_segments (length (segments path));
    }
unfolding tokenize_segments segments
tokenize_segments-segments path = ground (arith, tokenize_from-pieces [] path [] (omega arith))

-- A path as text: each segment behind one or more slashes, and any number of slashes at the end.
pub render : List (ℕ × Str) → ℕ → Str
render [] j = replicate j b'/'
render ((k, s) ∷ ps) j = b'/' ∷ (replicate k b'/' ++ (s ++ render ps j))

abbrev pub Clean : Str → Type 0
Clean s = (s ≢ []) × All (λ c. c ≢ b'/') s

abbrev segments_from : Str → Str → List Str
segments_from cur path = non_empty (pieces cur path)

pub from_slashes :
    (k : ℕ) (rest : Str) → segments_from [] (replicate k b'/' ++ rest) ≡ segments_from [] rest
unfolding pieces non_empty
from_slashes zero rest = refl
from_slashes (suc k) rest = from_slashes k rest

from_clean :
    (s cur rest : Str)
    → All (λ c. c ≢ b'/') s
    → segments_from cur (s ++ rest) ≡ segments_from (cur ++ s) rest
unfolding pieces
from_clean [] cur rest h = rw append-nil
from_clean (c ∷ s) cur rest h =
    ground (arith, h.0, from_clean s (cur ++ (c ∷ [])) rest h.1, append_assoc cur (c ∷ []) s)

-- What follows a segment begins with a slash or is empty.
from_render :
    (c : ℕ) (cur : Str) (ps : List (ℕ × Str)) (j : ℕ)
    → segments_from (c ∷ cur) (render ps j) ≡ (c ∷ cur) ∷ segments_from [] (render ps j)
unfolding render pieces non_empty
from_render c cur [] zero = refl
from_render c cur [] (suc j) = refl
from_render c cur ((k, s) ∷ ps) j = refl

abbrev pub names : List (ℕ × Str) → List Str
names [] = []
names ((k, s) ∷ ps) = s ∷ names ps

length-names : (ps : List (ℕ × Str)) → length (names ps) ≡ length ps
length-names [] = refl
length-names ((k, s) ∷ ps) = ap suc (length-names ps)

segments-render :
    (ps : List (ℕ × Str)) (j : ℕ) → All Clean (names ps) → segments (render ps j) ≡ names ps
unfolding segments render pieces non_empty
segments-render [] j h = ground (arith, from_slashes j [], append-nil (replicate {A = ℕ} j b'/'))
segments-render ((k, []) ∷ ps) j h = absurd (h.0.0 refl)
segments-render ((k, c ∷ s) ∷ ps) j h =
    from_slashes k ((c ∷ s) ++ render ps j)
    ∙ from_clean (c ∷ s) [] (render ps j) h.0.1
    ∙ from_render c s ps j
    ∙ ap (◌∷◌ (c ∷ s)) (segments-render ps j h.1)

-- Slashes that are doubled or at the end do not matter: up to 64 segments that are not empty and
-- have no slash inside are read back from any text that writes them, each behind one or more
-- slashes, with any number of slashes at the end.
pub tokenize_segments-render :
    (ps : List (ℕ × Str)) (j : ℕ)
    → All Clean (names ps)
    → length ps ≤ max_path_segments
    → tokenize_segments (render ps j) ≡ record { segs = names ps; overflow = false }
tokenize_segments-render ps j h n = ground (
  arith,
  tokenize_segments-segments (render ps j),
  segments-render ps j h,
  length-names ps,
  take-length (names ps) max_path_segments,
)

-- No token is empty.
non_empty-All : (ss : List Str) → All (λ s. 0 < length s) (non_empty ss)
unfolding non_empty
non_empty-All [] = tt
non_empty-All ([] ∷ ss) = non_empty-All ss
non_empty-All ((c ∷ s) ∷ ss) = (omega arith, non_empty-All ss)

take-All :
    (n : ℕ) (ss : List Str) → All (λ s. 0 < length s) ss → All (λ s. 0 < length s) (take n ss)
take-All zero ss h = tt
take-All (suc n) [] h = tt
take-All (suc n) (s ∷ ss) h = (h.0, take-All n ss h.1)

pub segments-non_empty : (path : Str) → All (λ s. 0 < length s) (tokenize_segments path).segs
unfolding segments
segments-non_empty path =
    rw (tokenize_segments-segments path)
      (take-All max_path_segments (segments path) (non_empty-All (pieces [] path)))
