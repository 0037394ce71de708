-- ===== src/Trie/Match/Walk.antt =====
-- The frames of the search are those of the label paths that match the request's segments.
use route_lang.Common.{
  ℕ, ◌<◌, ◌==◌, ◌≡◌, refl, subst, Bool, true, false, ◌&&◌, ◌||◌, Option, none, some, List, [], ◌∷◌,
  ◌++◌, if◌then◌else◌, length, contains, All, arith, inl, inr, Bool-cases,
}
use route_lang.Tokens.{Str}
use route_lang.Trie.{Nodes, node_at, find_child, is_param_segment, str_eq}
use route_lang.Trie.Nodes.{find_child-some, str_eq_iff}
use route_lang.Trie.Match.{Frame, param_frame, literal_frame}
use route_lang.Trie.Match.Search.{param_frames, literal_frames, expand, flat_map, collect}

-- A label takes a segment of the request: a parameter any, another its own.
unfoldable pub takes : Str → Str → Bool
takes label s = is_param_segment label || str_eq label s

-- A path of labels takes the first segments of the request.
unfoldable pub matches : List Str → List Str → Bool
unfolding takes
matches [] segs = true
matches (l ∷ ls) [] = false
matches (l ∷ ls) (s ∷ ss) = takes l s && matches ls ss

-- The frame of a child of `f` whose label is `label`.
unfoldable pub step_frame : Nodes → Frame → Str → Str → List Str → Option Frame
step_frame nodes f label s rest = elim (find_child nodes f.node label) [
  | none ↦ none
  | some c ↦
      if is_param_segment label
      then some (param_frame nodes f s rest c)
      else if str_eq label s
      then some (literal_frame f rest c)
      else none
]

-- The frame of a path of labels.
unfoldable pub follow : Nodes → Frame → List Str → List Str → Option Frame
unfolding step_frame
follow nodes f [] segs = some f
follow nodes f (l ∷ ls) [] = none
follow nodes f (l ∷ ls) (s ∷ rest) = elim (step_frame nodes f l s rest) [
  | none ↦ none
  | some g ↦ follow nodes g ls rest
]

module _ {ℓ} (P : Frame → Type ℓ) where
  pub All-append : (xs ys : List Frame) → All P xs → All P ys → All P (xs ++ ys)
  All-append [] ys h k = k
  All-append (x ∷ xs) ys h k = (h.0, All-append xs ys h.1 k)

  All-append_left : (xs ys : List Frame) → All P (xs ++ ys) → All P xs
  All-append_left [] ys h = tt
  All-append_left (x ∷ xs) ys h = (h.0, All-append_left xs ys h.1)

  All-append_right : (xs ys : List Frame) → All P (xs ++ ys) → All P ys
  All-append_right [] ys h = h
  All-append_right (x ∷ xs) ys h = All-append_right xs ys h.1

  All-params :
      (nodes : Nodes) (f : Frame) (s : Str) (rest : List Str) (c : ℕ) (cs : List ℕ)
      → contains c cs ≡ true
      → is_param_segment (node_at nodes c).segment ≡ true
      → All P (param_frames nodes f s rest cs)
      → P (param_frame nodes f s rest c)
  All-params nodes f s rest c [] m p h = absurd (ground arith)
  All-params nodes f s rest c (d ∷ cs) m p h = elim (Bool-cases (d == c)) [
    | inl same ↦
        let e : d ≡ c = ground arith in
        let q : is_param_segment (node_at nodes d).segment ≡ true = rw e p in
        let k : All P (param_frame nodes f s rest d ∷ param_frames nodes f s rest cs) = rw q at h in
        subst (λ x. P (param_frame nodes f s rest x)) e k.0
    | inr other ↦ elim (Bool-cases (is_param_segment (node_at nodes d).segment)) [
      | inl param ↦
          let k : All P (param_frame nodes f s rest d ∷ param_frames nodes f s rest cs) =
            rw param at h in
          All-params nodes f s rest c cs (ground arith) p k.1
      | inr literal ↦ All-params nodes f s rest c cs (ground arith) p (rw literal at h)
    ]
  ]

  -- What holds of the frames that a round pushes holds of the frame of a child that matches.
  All-expand :
      (nodes : Nodes) (f : Frame) (l s : Str) (rest : List Str) (g : Frame)
      → All P (expand nodes f s rest)
      → step_frame nodes f l s rest ≡ some g
      → P g
  unfolding step_frame
  All-expand nodes f l s rest g h e =
      split (find_child nodes f.node l) refl (is_param_segment l) refl (str_eq l s) refl
    where
      ls : List Frame
      ls = literal_frames nodes f rest (find_child nodes f.node s)

      ps : List Frame
      ps = param_frames nodes f s rest (node_at nodes f.node).children

      split :
          (o : Option ℕ)
          → find_child nodes f.node l ≡ o
          → (param : Bool) → is_param_segment l ≡ param
          → (same : Bool) → str_eq l s ≡ same
          → P g
      split none a param b same d = absurd (ground (arith, a))
      split (some c) a false b false d = absurd (ground (arith, a, b, d))
      split (some c) a true b same d =
          let m : (contains c (node_at nodes f.node).children ≡ true)
              × ((node_at nodes c).segment ≡ l)
              × (0 < length l) =
            find_child-some nodes f.node l c a in
          let this : param_frame nodes f s rest c ≡ g = ground (arith, a, b) in
          subst P this (
            All-params nodes f s rest c (node_at nodes f.node).children m.0 (rw m.1 b)
              (All-append_right ls ps h))
      split (some c) a false b true d =
          let eq : l ≡ s = (str_eq_iff l s).0 d in
          let found : find_child nodes f.node s ≡ some c =
            subst (λ t. find_child nodes f.node t ≡ some c) eq a in
          let m : (contains c (node_at nodes f.node).children ≡ true)
              × ((node_at nodes c).segment ≡ l)
              × (0 < length l) =
            find_child-some nodes f.node l c a in
          let literal : is_param_segment (node_at nodes c).segment ≡ false = rw m.1 b in
          let this : literal_frame f rest c ≡ g = ground (arith, a, b, d) in
          let k : All P (literal_frames nodes f rest (find_child nodes f.node s)) =
            All-append_left ls ps h in
          let q : All P (literal_frame f rest c ∷ []) = rw (found, literal) at k in subst P this q.0

  All-flat_map :
      (G : Frame → List Frame) (fs : List Frame) → All P (flat_map G fs) → All (λ f. All P (G f)) fs
  All-flat_map G [] h = tt
  All-flat_map G (f ∷ fs) h = (
    All-append_left (G f) (flat_map G fs) h,
    All-flat_map G fs (All-append_right (G f) (flat_map G fs) h),
  )

  pub flat_map-All :
      (G : Frame → List Frame) (fs : List Frame) → All (λ f. All P (G f)) fs → All P (flat_map G fs)
  flat_map-All G [] h = tt
  flat_map-All G (f ∷ fs) h = All-append (G f) (flat_map G fs) h.0 (flat_map-All G fs h.1)

-- What holds of every frame of the search holds of the frame of every path that matches.
pub All-collect {ℓ} :
    (P : Frame → Type ℓ) (nodes : Nodes) (segs : List Str) (f g : Frame) (ls : List Str)
    → All P (collect nodes segs f)
    → follow nodes f ls segs ≡ some g
    → P g
unfolding follow
All-collect P nodes [] f g [] h e = let same : f ≡ g = ground arith in subst P same h.0
All-collect P nodes [] f g (l ∷ ls) h e = absurd (ground arith)
All-collect P nodes (s ∷ rest) f g [] h e = let same : f ≡ g = ground arith in subst P same h.0
All-collect P nodes (s ∷ rest) f g (l ∷ ls) h e =
    split (step_frame nodes f l s rest) refl (λ k. All-collect P nodes rest k g ls)
  where
    split :
        (o : Option Frame)
        → step_frame nodes f l s rest ≡ o
        → ((k : Frame) → All P (collect nodes rest k) → follow nodes k ls rest ≡ some g → P g)
        → P g
    split none a ih = absurd (ground (arith, a))
    split (some k) a ih =
        ih k
          (All-expand (λ x. All P (collect nodes rest x)) nodes f l s rest k
            (All-flat_map P (collect nodes rest) (expand nodes f s rest) h.1) a)
          (ground (arith, a))

pub All-mono {ℓ κ} :
    (P : Frame → Type ℓ) (Q : Frame → Type κ) (fs : List Frame)
    → ((f : Frame) → P f → Q f)
    → All P fs
    → All Q fs
All-mono P Q [] h a = tt
All-mono P Q (f ∷ fs) h a = (h f a.0, All-mono P Q fs h a.1)
