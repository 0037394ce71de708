-- ===== src/Trie/Match/Rank.antt =====
-- Which of the candidates `consider` keeps, and what a candidate says of its path of labels.
use route_lang.Common.{
  ℕ, ◌+◌, ◌-◌, ◌^◌, ◌≤◌, ◌==◌, ◌≡◌, refl, ap, sym, subst, ◌∙◌, Bool, true, not, ◌&&◌, ◌||◌, Option,
  none, some, List, [], ◌∷◌, ◌++◌, if◌then◌else◌, length, length-append, take, take-append_left,
  ltb, bit_or, All, arith, inl, inr, Bool-cases,
}
use mathlib.Core.List.{append_assoc, append-nil}
use route_lang.Tokens.{Str}
use route_lang.Trie.{Nodes, find_child, is_param_segment, invalid_route}
use route_lang.Trie.Nodes.{find_child-some}
use route_lang.Trie.Reach.{reach, route_at}
use route_lang.Trie.Match.{
  Candidate, Frame, RouteParam, drop_colon, param_frame, literal_frame, max_route_params, candidate,
  better, consider,
}
use route_lang.Trie.Match.Search.{consider_all}
use route_lang.Trie.Match.Walk.{takes, matches, step_frame, follow}

-- How many labels are literal.
abbrev pub literals : List Str → ℕ
literals [] = 0
literals (l ∷ ls) = (if is_param_segment l then 0 else 1) + literals ls

-- The bit of a literal label, by its depth; the first label is at depth 1.
abbrev pub literal_bit : Str → ℕ → ℕ → ℕ
literal_bit l d m =
    if is_param_segment l then m else if ltb d 64 then bit_or m (2 ^ (63 - d)) else m

abbrev pub literal_mask : List Str → ℕ → ℕ → ℕ
literal_mask [] d m = m
literal_mask (l ∷ ls) d m = literal_mask ls (d + 1) (literal_bit l d m)

-- The parameters that a path of labels takes from the segments.
abbrev pub captures : List Str → List Str → List RouteParam
captures [] segs = []
captures (l ∷ ls) [] = []
captures (l ∷ ls) (s ∷ ss) =
    if is_param_segment l
    then record { name = drop_colon l; value = s } ∷ captures ls ss
    else captures ls ss

-- The candidate of a path of labels, in terms of the routes that the trie holds.
abbrev pub has_own : Nodes → ℕ → List Str → Bool
has_own nodes slot ls = not (slot == 0) && not (route_at nodes ls slot == invalid_route)

unfoldable pub described : Nodes → ℕ → List Str → List Str → Candidate
described nodes slot ls segs = record {
  route_idx = route_at nodes ls (if has_own nodes slot ls then slot else 0);
  depth = length ls;
  static_segments = literals ls;
  static_mask = literal_mask ls 1 0;
  method_specific = has_own nodes slot ls;
  params = take max_route_params (captures ls segs);
}

-- `c` does not replace `best`.
unfoldable pub loses : Candidate → Candidate → Bool
loses c best = c.route_idx == invalid_route || not (better c best)

consider_self : (best c : Candidate) → loses c (consider best c) ≡ true
unfolding loses consider better
consider_self best c = ground arith

consider-loses : (best c d : Candidate) → loses c best ≡ true → loses c (consider best d) ≡ true
unfolding loses consider better
consider-loses best c d h = ground arith

consider_all-loses :
    (nodes : Nodes) (slot : ℕ) (best c : Candidate) (fs : List Frame)
    → loses c best ≡ true
    → loses c (consider_all nodes slot best fs) ≡ true
consider_all-loses nodes slot best c [] h = h
consider_all-loses nodes slot best c (f ∷ fs) h =
    consider_all-loses nodes slot (consider best (candidate nodes slot f)) c fs
      (consider-loses best c (candidate nodes slot f) h)

-- No candidate replaces the one that is kept in the end.
pub consider_all-best :
    (nodes : Nodes) (slot : ℕ) (best : Candidate) (fs : List Frame)
    → All (λ f. loses (candidate nodes slot f) (consider_all nodes slot best fs) ≡ true) fs
consider_all-best nodes slot best [] = tt
consider_all-best nodes slot best (f ∷ fs) =
    let next : Candidate = consider best (candidate nodes slot f) in
    (
      consider_all-loses nodes slot next (candidate nodes slot f) fs
          (consider_self best (candidate nodes slot f)),
      consider_all-best nodes slot next fs,
    )

-- The one that is kept is one of those considered, or the first.
pub consider_all-source {ℓ} :
    (P : Candidate → Type ℓ) (nodes : Nodes) (slot : ℕ) (best : Candidate) (fs : List Frame)
    → P best
    → All (λ f. P (candidate nodes slot f)) fs
    → P (consider_all nodes slot best fs)
consider_all-source P nodes slot best [] b h = b
consider_all-source P nodes slot best (f ∷ fs) b h =
    consider_all-source P nodes slot (consider best (candidate nodes slot f)) fs kept h.1
  where
    kept : P (consider best (candidate nodes slot f))
    kept = elim (Bool-cases (loses (candidate nodes slot f) best)) [
      | inl stays ↦
          let e : best ≡ consider best (candidate nodes slot f) =
            unfold loses consider in ground arith in
          subst P e b
      | inr wins ↦
          let e : candidate nodes slot f ≡ consider best (candidate nodes slot f) =
            unfold loses consider in ground arith in
          subst P e h.0
    ]

-- What a step adds to its frame.
abbrev StepFacts : Nodes → Frame → Str → Str → List Str → Frame → Type 0
StepFacts nodes f l s rest g =
    (takes l s ≡ true)
    × (find_child nodes f.node l ≡ some g.node)
    × (g.depth ≡ f.depth + 1)
    × (g.static_segments ≡ f.static_segments + (if is_param_segment l then 0 else 1))
    × (g.static_mask ≡ literal_bit l (f.depth + 1) f.static_mask)
    × (g.params ≡ (
        if is_param_segment l && ltb (length f.params) max_route_params
        then f.params ++ (record { name = drop_colon l; value = s } ∷ [])
        else f.params))

step-StepFacts :
    (nodes : Nodes) (f : Frame) (l s : Str) (rest : List Str) (g : Frame)
    → step_frame nodes f l s rest ≡ some g
    → StepFacts nodes f l s rest g
unfolding step_frame takes param_frame literal_frame
step-StepFacts nodes f l s rest g e = split (find_child nodes f.node l) refl
  where
    split : (o : Option ℕ) → find_child nodes f.node l ≡ o → StepFacts nodes f l s rest g
    split none a = absurd (ground (arith, a))
    split (some c) a = ground (arith, a, find_child-some nodes f.node l c a)

append-take :
    (n : ℕ) (xs ys : List RouteParam) (x : RouteParam)
    → (if ltb (length xs) n then take n ((xs ++ (x ∷ [])) ++ ys) else take n (xs ++ ys))
      ≡ take n (xs ++ (x ∷ ys))
append-take n xs ys x = elim (Bool-cases (ltb (length xs) n)) [
  | inl room ↦ rw room (ap (take n) (append_assoc xs (x ∷ []) ys))
  | inr full ↦ rw full (same n xs ys (x ∷ ys) (ground arith))
]
  where
    same :
        (m : ℕ) (zs us vs : List RouteParam) → m ≤ length zs → take m (zs ++ us) ≡ take m (zs ++ vs)
    same m zs us vs h = take-append_left m zs us h ∙ sym (take-append_left m zs vs h)

-- What a path adds to its frame.
abbrev FollowFacts : Nodes → Frame → List Str → List Str → Frame → Type 0
FollowFacts nodes f ls segs g =
    (matches ls segs ≡ true)
    × (reach nodes f.node ls ≡ some g.node)
    × (g.depth ≡ f.depth + length ls)
    × (g.static_segments ≡ f.static_segments + literals ls)
    × (g.static_mask ≡ literal_mask ls (f.depth + 1) f.static_mask)
    × (take max_route_params g.params ≡ take max_route_params (f.params ++ captures ls segs))
    × (length f.params ≤ max_route_params → length g.params ≤ max_route_params)

step-follow :
    (nodes : Nodes) (f : Frame) (l s : Str) (rest : List Str) (ls : List Str) (k g : Frame)
    → StepFacts nodes f l s rest k
    → FollowFacts nodes k ls rest g
    → FollowFacts nodes f (l ∷ ls) (s ∷ rest) g
unfolding matches reach
step-follow nodes f l s rest ls k g a b = (
  ground (arith, a.0, b.0),
  rw (a.1, reach) b.1,
  omega arith,
  omega arith,
  rw (a.2, a.4) at b.4,
  params,
  λ h. b.6 (held h),
)
  where
    x : RouteParam
    x = record { name = drop_colon l; value = s }

    held : length f.params ≤ max_route_params → length k.params ≤ max_route_params
    held h = ground (arith, a.5, length-append f.params (x ∷ []))

    params :
        take max_route_params g.params
        ≡ take max_route_params (f.params ++ captures (l ∷ ls) (s ∷ rest))
    params = elim (Bool-cases (is_param_segment l)) [
      | inl param ↦
          ground (arith, a.5, b.5, append-take max_route_params f.params (captures ls rest) x)
      | inr literal ↦ ground (arith, a.5, b.5)
    ]

pub follow-FollowFacts :
    (nodes : Nodes) (f : Frame) (ls segs : List Str) (g : Frame)
    → follow nodes f ls segs ≡ some g
    → FollowFacts nodes f ls segs g
unfolding follow matches reach
follow-FollowFacts nodes f [] segs g e =
    let same : f ≡ g = ground arith in
    subst (FollowFacts nodes f [] segs) same (
      refl,
      refl,
      omega arith,
      omega arith,
      refl,
      ap (take max_route_params) (sym (append-nil f.params)),
      λ h. h,
    )
follow-FollowFacts nodes f (l ∷ ls) [] g e = absurd (ground arith)
follow-FollowFacts nodes f (l ∷ ls) (s ∷ rest) g e =
    split (step_frame nodes f l s rest) refl (λ k. follow-FollowFacts nodes k ls rest g)
  where
    split :
        (o : Option Frame)
        → step_frame nodes f l s rest ≡ o
        → ((k : Frame) → follow nodes k ls rest ≡ some g → FollowFacts nodes k ls rest g)
        → FollowFacts nodes f (l ∷ ls) (s ∷ rest) g
    split none a ih = absurd (ground (arith, a))
    split (some k) a ih =
        step-follow nodes f l s rest ls k g (step-StepFacts nodes f l s rest k a)
          (ih k (ground (arith, a)))
