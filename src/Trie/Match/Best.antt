-- ===== src/Trie/Match/Best.antt =====
-- `match_key` finds the best of the routes whose label paths match the request.
use route_lang.Common.{
  ℕ, ◌≡◌, ◌≢◌, ◌⊎◌, refl, sym, subst, true, false, some, List, [], ◌∷◌, take, take-length, arith,
  inl, inr, Bool-cases, Option-cases,
}
use route_lang.Method.{slot_invalid, slot_from_key}
use route_lang.Tokens.{Str, tokenize_segments}
use route_lang.Trie.{Nodes, find_child, is_param_segment, invalid_route}
use route_lang.Trie.Reach.{reach, route_at}
use route_lang.Trie.Insert.{IsTrie}
use route_lang.Trie.Match.{
  Candidate, Frame, RouteParam, param_frame, literal_frame, max_route_params, pick_terminal,
  candidate, better, root_frame, no_candidate, best_candidate, match_key,
}
use route_lang.Trie.Match.Search.{consider_all, collect}
use route_lang.Trie.Match.Bound.{best_candidate_lem}
use route_lang.Trie.Match.Walk.{takes, matches, step_frame, follow, All-collect, All-mono}
use route_lang.Trie.Match.Sound.{IsFollowed, collect-IsFollowed}
use route_lang.Trie.Match.Rank.{
  described, loses, consider_all-best, consider_all-source, follow-FollowFacts,
}

step-exists :
    (nodes : Nodes) (f : Frame) (l s : Str) (rest : List Str) (c : ℕ)
    → takes l s ≡ true
    → find_child nodes f.node l ≡ some c
    → (k : Frame) × (step_frame nodes f l s rest ≡ some k) × (k.node ≡ c)
unfolding takes step_frame param_frame literal_frame
step-exists nodes f l s rest c t e = elim (Bool-cases (is_param_segment l)) [
  | inl param ↦ (param_frame nodes f s rest c, ground (arith, e), refl)
  | inr literal ↦ (literal_frame f rest c, ground (arith, e), refl)
]

-- A path that matches and stands in the trie has a frame.
follow-exists :
    (nodes : Nodes) (f : Frame) (ls segs : List Str) (j : ℕ)
    → matches ls segs ≡ true
    → reach nodes f.node ls ≡ some j
    → (g : Frame) × (follow nodes f ls segs ≡ some g)
unfolding matches reach follow
follow-exists nodes f [] segs j h e = (f, refl)
follow-exists nodes f (l ∷ ls) [] j h e = absurd (ground arith)
follow-exists nodes f (l ∷ ls) (s ∷ rest) j h e = elim (Option-cases (find_child nodes f.node l)) [
  | inl missing ↦ absurd (ground (arith, missing))
  | inr (c, found) ↦
      let t : takes l s ≡ true = ground arith in
      let st : (k : Frame) × (step_frame nodes f l s rest ≡ some k) × (k.node ≡ c) =
        step-exists nodes f l s rest c t found in
      let r : reach nodes st.0.node ls ≡ some j = ground (arith, found, st.2) in
      let u : (g : Frame) × (follow nodes st.0 ls rest ≡ some g) =
        follow-exists nodes st.0 ls rest j (ground arith) r in
      (u.0, rw (st.1, follow) u.1)
]

-- The candidate of a frame says what its path is.
candidate-described :
    (nodes : Nodes) (slot : ℕ) (ls segs : List Str) (g : Frame)
    → follow nodes (root_frame segs) ls segs ≡ some g
    → candidate nodes slot g ≡ described nodes slot ls segs
unfolding candidate described pick_terminal route_at
candidate-described nodes slot ls segs g e = ground (
  arith,
  follow-FollowFacts nodes (root_frame segs) ls segs g e,
  take-length g.params max_route_params,
)

-- The best candidate: it is that of a path that matches, or there is none, and no other path that
-- matches and has a route is better.
pub record IsBest (nodes : Nodes) (slot : ℕ) (segs : List Str) (best : Candidate) : Type 0 where
  pub source :
      (best ≡ no_candidate)
      ⊎ ((ls : List Str) × (matches ls segs ≡ true) × (best ≡ described nodes slot ls segs))
  pub highest :
      (ls : List Str)
      → matches ls segs ≡ true
      → (described nodes slot ls segs).route_idx ≢ invalid_route
      → better (described nodes slot ls segs) best ≡ false

module _ (nodes : Nodes) (v : IsTrie nodes) (slot : ℕ) (segs : List Str) where
  abbrev frames : List Frame
  frames = collect nodes segs (root_frame segs)

  abbrev kept : Candidate
  kept = consider_all nodes slot no_candidate frames

  abbrev IsSource : Candidate → Type 0
  IsSource c =
      (c ≡ no_candidate)
      ⊎ ((ls : List Str) × (matches ls segs ≡ true) × (c ≡ described nodes slot ls segs))

  kept-IsSource : IsSource kept
  kept-IsSource = consider_all-source IsSource nodes slot no_candidate frames (inl refl) (
      All-mono (IsFollowed nodes v.paths v.tree segs (root_frame segs))
        (λ f. IsSource (candidate nodes slot f)) frames
        (λ g u. inr (
          u.0,
          (follow-FollowFacts nodes (root_frame segs) u.0 segs g u.1).0,
          candidate-described nodes slot u.0 segs g u.1,
        ))
        (collect-IsFollowed nodes v.paths v.tree segs (root_frame segs) v.tree.rooted))

  kept-highest :
      (ls : List Str)
      → matches ls segs ≡ true
      → (described nodes slot ls segs).route_idx ≢ invalid_route
      → better (described nodes slot ls segs) kept ≡ false
  unfolding loses
  kept-highest ls m r = elim (Option-cases (reach nodes 0 ls)) [
    | inl missing ↦ absurd (r (unfold described route_at in ground (arith, missing)))
    | inr (j, found) ↦
        let u : (g : Frame) × (follow nodes (root_frame segs) ls segs ≡ some g) =
          follow-exists nodes (root_frame segs) ls segs j m found in
        let l : loses (candidate nodes slot u.0) kept ≡ true =
          All-collect (λ f. loses (candidate nodes slot f) kept ≡ true) nodes segs (root_frame segs)
            u.0 ls (consider_all-best nodes slot no_candidate frames) u.1 in
        let e : loses (described nodes slot ls segs) kept ≡ true =
          rw (candidate-described nodes slot ls segs u.0 u.1) at l in
        ground (arith, e)
  ]

  -- The search returns the best of the candidates, with the fuel and the stack that it has.
  pub best_candidate-IsBest : IsBest nodes slot segs (best_candidate nodes slot segs)
  best_candidate-IsBest =
      subst (IsBest nodes slot segs) (sym (best_candidate_lem nodes v.paths v.tree slot segs))
        (record { source = kept-IsSource; highest = kept-highest })

-- What `match_key` returns, in the array of `cap` parameters too.
abbrev pub Answered : Nodes → ℕ → List Str → ℕ → ℕ × List RouteParam → Type 0
Answered nodes slot segs cap answer =
    (best : Candidate) × IsBest nodes slot segs best
    × (answer ≡ (best.route_idx, take cap best.params))

-- On a trie and with a key that has a slot, `match_key` returns the route, and the first parameters,
-- of the best candidate for the tokenized path.
pub match_key-Answered :
    (nodes : Nodes) (path : Str) (key cap : ℕ)
    → IsTrie nodes
    → slot_from_key key ≢ slot_invalid
    → Answered nodes
        (slot_from_key key)
        (tokenize_segments path).segs
        cap
        (match_key nodes path key cap)
unfolding match_key
match_key-Answered nodes path key cap v h = (
  best_candidate nodes (slot_from_key key) (tokenize_segments path).segs,
  best_candidate-IsBest nodes v (slot_from_key key) (tokenize_segments path).segs,
  ground (arith, h),
)
