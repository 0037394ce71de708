-- ===== src/Trie/Match/Sound.antt =====
-- Every frame that the search pops is that of a label path that matches.
use route_lang.Common.{
  ℕ, ◌<◌, ◌≡◌, refl, ap, sym, ◌∙◌, true, false, Option, none, some, List, [], ◌∷◌, ◌++◌, length,
  contains, All, arith, inl, inr, Bool-cases,
}
use route_lang.Tokens.{Str}
use route_lang.Trie.{Nodes, node_at, find_child, is_param_segment}
use route_lang.Trie.Nodes.{find_child-some, str_eq_iff}
use route_lang.Trie.Reach.{reach, reach-append, Labelled}
use route_lang.Trie.Match.{Frame, param_frame, literal_frame}
use route_lang.Trie.Match.Search.{param_frames, literal_frames, expand, collect}
use route_lang.Trie.Match.Walk.{step_frame, follow, All-append, flat_map-All, All-mono}

module _ (nodes : Nodes) (paths : ℕ → List Str) (w : Labelled nodes paths) where
  -- A child is what its segment finds.
  find_child-child :
      (i c : ℕ)
      → i < length nodes
      → contains c (node_at nodes i).children ≡ true
      → find_child nodes i (node_at nodes c).segment ≡ some c
  unfolding reach
  find_child-child i c h m =
      let l : (c < length nodes) × (paths c ≡ paths i ++ ((node_at nodes c).segment ∷ [])) =
        w.linked i c h m in
      let e : reach nodes 0 (paths i ++ ((node_at nodes c).segment ∷ [])) ≡ some c =
        ap (reach nodes 0) (sym l.1) ∙ w.reached c l.0 in
      ground (arith, reach-append nodes 0 (paths i) ((node_at nodes c).segment ∷ []), w.reached i h)

  module _ (f : Frame) (s : Str) (rest : List Str) (h : f.node < length nodes) where
    -- A frame that a round pushes is that of a child whose label takes the segment.
    abbrev IsStep : Frame → Type 0
    IsStep g = (g.node < length nodes) × ((l : Str) × (step_frame nodes f l s rest ≡ some g))

    param-IsStep :
        (c : ℕ)
        → contains c (node_at nodes f.node).children ≡ true
        → is_param_segment (node_at nodes c).segment ≡ true
        → IsStep (param_frame nodes f s rest c)
    unfolding step_frame
    param-IsStep c m p = (
      unfold param_frame in (w.linked f.node c h m).0,
      ((node_at nodes c).segment, ground (arith, find_child-child f.node c h m)),
    )

    params-IsStep :
        (cs : List ℕ)
        → ((c : ℕ) → contains c cs ≡ true → contains c (node_at nodes f.node).children ≡ true)
        → All IsStep (param_frames nodes f s rest cs)
    params-IsStep [] k = tt
    params-IsStep (c ∷ cs) k = elim (Bool-cases (is_param_segment (node_at nodes c).segment)) [
      | inl param ↦
          rw param (
            param-IsStep c (k c (ground arith)) param,
            params-IsStep cs (λ d m. k d (ground arith)),
          )
      | inr literal ↦ rw literal (params-IsStep cs (λ d m. k d (ground arith)))
    ]

    literal-IsStep :
        (o : Option ℕ) → find_child nodes f.node s ≡ o → All IsStep (literal_frames nodes f rest o)
    unfolding step_frame
    literal-IsStep none e = tt
    literal-IsStep (some c) e = elim (Bool-cases (is_param_segment (node_at nodes c).segment)) [
      | inl param ↦ rw param tt
      | inr literal ↦ rw literal (
        (
          unfold literal_frame in (w.linked f.node c h (find_child-some nodes f.node s c e).0).0,
          (s, found literal),
        ),
        tt,
      )
    ]
      where
        found :
            is_param_segment (node_at nodes c).segment ≡ false
            → step_frame nodes f s s rest ≡ some (literal_frame f rest c)
        found p = ground (arith, e, find_child-some nodes f.node s c e, (str_eq_iff s s).1 refl)

    expand-IsStep : All IsStep (expand nodes f s rest)
    expand-IsStep =
        All-append IsStep (literal_frames nodes f rest (find_child nodes f.node s))
          (param_frames nodes f s rest (node_at nodes f.node).children)
          (literal-IsStep (find_child nodes f.node s) refl)
          (params-IsStep (node_at nodes f.node).children (λ c m. m))

  -- Every frame of the search is that of a path that matches.
  abbrev pub IsFollowed : List Str → Frame → Frame → Type 0
  IsFollowed segs f g = (ls : List Str) × (follow nodes f ls segs ≡ some g)

  pub collect-IsFollowed :
      (segs : List Str) (f : Frame)
      → f.node < length nodes
      → All (IsFollowed segs f) (collect nodes segs f)
  unfolding follow
  collect-IsFollowed [] f h = (([], refl), tt)
  collect-IsFollowed (s ∷ rest) f h = (
    ([], refl),
    flat_map-All (IsFollowed (s ∷ rest) f) (collect nodes rest) (expand nodes f s rest) (
        All-mono (IsStep f s rest h) (λ k. All (IsFollowed (s ∷ rest) f) (collect nodes rest k))
          (expand nodes f s rest)
          (λ k d.
            All-mono (IsFollowed rest k) (IsFollowed (s ∷ rest) f) (collect nodes rest k)
              (λ g u. (d.1.0 ∷ u.0, rw (d.1.1, follow) u.1)) (collect-IsFollowed rest k d.0))
          (expand-IsStep f s rest h)),
  )
