-- ===== src/Trie/Match/Bound.antt =====
-- The search pops no node twice: it is over after `max_nodes` rounds, and its stack never overflows.
use route_lang.Common.{
  ℕ, ◌≤◌, ◌<◌, ◌==◌, ◌≡◌, refl, ap, sym, subst, ◌∙◌, true, false, List, [], ◌∷◌, ◌++◌, length,
  length-append, contains, nodup, nodup-length, arith, inl, inr, Bool-cases,
}
use mathlib.Core.List.{append_assoc, append-nil}
use route_lang.Tokens.{Str}
use route_lang.Trie.{max_nodes, Nodes, node_at}
use route_lang.Trie.Reach.{reach, Labelled}
use route_lang.Trie.Match.{Frame, root_frame, best_candidate, no_candidate}
use route_lang.Trie.Match.Search.{collect, consider_all, search_lem}
use route_lang.Trie.Match.Kids.{
  kids, gather, below, length-collect, kids-contains, nodup-kids, nodup-append, gather-contains,
  append-cancel,
}

module _ (nodes : Nodes) (paths : ℕ → List Str) (w : Labelled nodes paths) where
  -- A node of the subtree of `c`.
  abbrev IsUnder : ℕ → ℕ → Type 0
  IsUnder c a = (a < length nodes) × ((ext : List Str) × paths a ≡ paths c ++ ext)

  child-IsUnder :
      (i c a : ℕ)
      → i < length nodes
      → contains c (node_at nodes i).children ≡ true
      → IsUnder c a
      → (ext : List Str) × paths a ≡ paths i ++ ((node_at nodes c).segment ∷ ext)
  child-IsUnder i c a h m u = (
    u.1.0,
    u.1.1
        ∙ ap (λ t. t ++ u.1.0) (w.linked i c h m).1
        ∙ append_assoc (paths i) ((node_at nodes c).segment ∷ []) u.1.0,
  )

  self-IsUnder : (i : ℕ) → i < length nodes → IsUnder i i
  self-IsUnder i h = (h, ([], sym (append-nil (paths i))))

  below-IsUnder :
      (segs : List Str) (i a : ℕ)
      → i < length nodes
      → contains a (below nodes segs i) ≡ true
      → IsUnder i a
  below-IsUnder [] i a h m = subst (IsUnder i) (ground arith) (self-IsUnder i h)
  below-IsUnder (s ∷ rest) i a h m = elim (Bool-cases (i == a)) [
    | inl same ↦ subst (IsUnder i) (ground arith) (self-IsUnder i h)
    | inr other ↦
        let r : (c : ℕ) × (contains c (kids nodes i s) ≡ true)
            × (contains a (below nodes rest c) ≡ true) =
          gather-contains (below nodes rest) a (kids nodes i s) (ground arith) in
        let kid : contains r.0 (node_at nodes i).children ≡ true =
          kids-contains nodes i s r.0 r.1 in
        let u : IsUnder r.0 a = below-IsUnder rest r.0 a (w.linked i r.0 h kid).0 r.2 in
        let x : (ext : List Str) × paths a ≡ paths i ++ ((node_at nodes r.0).segment ∷ ext) =
          child-IsUnder i r.0 a h kid u in
        (u.0, ((node_at nodes r.0).segment ∷ x.0, x.1))
  ]

  -- The subtrees of two children have no node in common.
  siblings :
      (i c d a : ℕ)
      → i < length nodes
      → contains c (node_at nodes i).children ≡ true
      → contains d (node_at nodes i).children ≡ true
      → IsUnder c a
      → IsUnder d a
      → c ≡ d
  siblings i c d a h m n u v =
      let x : (ext : List Str) × paths a ≡ paths i ++ ((node_at nodes c).segment ∷ ext) =
        child-IsUnder i c a h m u in
      let y : (ext : List Str) × paths a ≡ paths i ++ ((node_at nodes d).segment ∷ ext) =
        child-IsUnder i d a h n v in
      let e : (node_at nodes c).segment ≡ (node_at nodes d).segment =
        append-cancel (paths i) x.0 y.0 (node_at nodes c).segment (node_at nodes d).segment
          (sym x.1 ∙ y.1) in
      let p : paths c ≡ paths d =
        (w.linked i c h m).1 ∙ ap (λ t. paths i ++ (t ∷ [])) e ∙ sym (w.linked i d h n).1 in
      ground (
        arith,
        p,
        w.reached c (w.linked i c h m).0,
        w.reached d (w.linked i d h n).0,
        ap (reach nodes 0) p,
      )

  -- A node is in none of its children's subtrees.
  above_children :
      (i c : ℕ) → i < length nodes → contains c (node_at nodes i).children ≡ true → ¬ (IsUnder c i)
  above_children i c h m u =
      let x : (ext : List Str) × paths i ≡ paths i ++ ((node_at nodes c).segment ∷ ext) =
        child-IsUnder i c i h m u in
      let n : length (paths i) ≡ length (paths i ++ ((node_at nodes c).segment ∷ x.0)) =
        ap (length {A = Str}) x.1 in
      omega (arith, length-append (paths i) ((node_at nodes c).segment ∷ x.0))

  nodup-gather :
      (rest : List Str) (i : ℕ) (cs : List ℕ)
      → i < length nodes
      → nodup cs ≡ true
      → ((c : ℕ) → contains c cs ≡ true → contains c (node_at nodes i).children ≡ true)
      → ((c : ℕ) → c < length nodes → nodup (below nodes rest c) ≡ true)
      → nodup (gather (below nodes rest) cs) ≡ true
  nodup-gather rest i [] h n k ih = refl
  nodup-gather rest i (c ∷ cs) h n k ih =
      nodup-append (below nodes rest c) (gather (below nodes rest) cs) (ih c inside)
        (nodup-gather rest i cs h (ground arith) (λ d m. k d (ground arith)) ih) apart
    where
      kid : contains c (node_at nodes i).children ≡ true
      kid = k c (ground arith)

      inside : c < length nodes
      inside = (w.linked i c h kid).0

      apart :
          (a : ℕ)
          → contains a (below nodes rest c) ≡ true
          → contains a (gather (below nodes rest) cs) ≡ false
      apart a m = elim (Bool-cases (contains a (gather (below nodes rest) cs))) [
        | inr away ↦ away
        | inl there ↦
            let r : (d : ℕ) × (contains d cs ≡ true) × (contains a (below nodes rest d) ≡ true) =
              gather-contains (below nodes rest) a cs there in
            let other : contains r.0 (node_at nodes i).children ≡ true = k r.0 (ground arith) in
            let e : c ≡ r.0 =
              siblings i c r.0 a h kid other (below-IsUnder rest c a inside m)
                (below-IsUnder rest r.0 a (w.linked i r.0 h other).0 r.2) in
            absurd (ground (arith, r.1))
      ]

  nodup-below : (segs : List Str) (i : ℕ) → i < length nodes → nodup (below nodes segs i) ≡ true
  nodup-below [] i h = refl
  nodup-below (s ∷ rest) i h = ground (
    arith,
    apart,
    nodup-gather rest i (kids nodes i s) h (nodup-kids nodes i s (w.distinct i h))
        (kids-contains nodes i s) (nodup-below rest),
  )
    where
      apart : contains i (gather (below nodes rest) (kids nodes i s)) ≡ false
      apart = elim (Bool-cases (contains i (gather (below nodes rest) (kids nodes i s)))) [
        | inr away ↦ away
        | inl there ↦
            let r : (c : ℕ) × (contains c (kids nodes i s) ≡ true)
                × (contains i (below nodes rest c) ≡ true) =
              gather-contains (below nodes rest) i (kids nodes i s) there in
            let kid : contains r.0 (node_at nodes i).children ≡ true =
              kids-contains nodes i s r.0 r.1 in
            absurd
              (above_children i r.0 h kid (below-IsUnder rest r.0 i (w.linked i r.0 h kid).0 r.2))
      ]

  -- The frames that the search may pop are no more than the nodes of the pool.
  pub length-collect_bound :
      (segs : List Str) (f : Frame)
      → f.node < length nodes
      → length (collect nodes segs f) ≤ max_nodes
  length-collect_bound segs f h = omega (
    arith,
    w.sized,
    length-collect nodes segs f,
    nodup-length (length nodes) (below nodes segs f.node) (nodup-below segs f.node h)
        (λ a m. (below-IsUnder segs f.node a h m).0),
  )

  -- `max_nodes` rounds and `max_nodes` places on the stack are enough: the loop considers each of
  -- the frames once.
  pub best_candidate_lem :
      (slot : ℕ) (segs : List Str)
      → best_candidate nodes slot segs
        ≡ consider_all nodes slot no_candidate (collect nodes segs (root_frame segs))
  unfolding best_candidate
  best_candidate_lem slot segs =
      search_lem max_nodes nodes slot (root_frame segs ∷ []) no_candidate (rw same bound)
        (rw same bound)
      ∙ ap (consider_all nodes slot no_candidate) same
    where
      same : collect nodes segs (root_frame segs) ++ [] ≡ collect nodes segs (root_frame segs)
      same = append-nil (collect nodes segs (root_frame segs))

      bound : length (collect nodes segs (root_frame segs)) ≤ max_nodes
      bound = length-collect_bound segs (root_frame segs) w.rooted
