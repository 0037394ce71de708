-- ===== src/Trie/Record.antt =====
-- `insert` records a route at one node, in a slot that is free.
use route_lang.Common.{
  nodup, ℕ, ◌<◌, ◌==◌, ◌≡◌, ◌≢◌, ◌⊎◌, refl, ◌∙◌, true, Bool-cases, Option-cases, Option, none, some,
  List, [], ◌∷◌, ◌++◌, if◌then◌else◌, length, set, arith, inl, inr, contains, length-set,
  get_or-set_self, get_or-set_ne,
}
use route_lang.Method.{method_slots}
use route_lang.Tokens.{Str}
use route_lang.Trie.{TrieNode, new_node, invalid_route, Nodes, node_at, find_child, record_route}
use route_lang.Trie.Nodes.{scan_children-agree}
use route_lang.Trie.Reach.{reach, route_at, Labelled, reach-injective}

-- Recording a route changes one slot of one node.
module _ (nodes : Nodes) (paths : ℕ → List Str) (w : Labelled nodes paths) (cur slot route : ℕ)
    (here : cur < length nodes) (valid : slot < method_slots) where
  abbrev written : TrieNode
  written = record (node_at nodes cur) {
    route_idx_by_method = set (node_at nodes cur).route_idx_by_method slot route;
  }

  abbrev pub marked : Nodes
  marked = record_route nodes cur slot route

  marked-node :
      (i : ℕ)
      → ((node_at marked i).segment ≡ (node_at nodes i).segment)
        × ((node_at marked i).children ≡ (node_at nodes i).children)
        × (length (node_at marked i).route_idx_by_method
            ≡ length (node_at nodes i).route_idx_by_method)
  unfolding record_route
  marked-node i = elim (Bool-cases (i == cur)) [
    | inl same ↦ ground (
      arith,
      get_or-set_self nodes cur written (new_node []) here,
      length-set (node_at nodes cur).route_idx_by_method slot route,
    )
    | inr other ↦ ground (arith, get_or-set_ne nodes cur i written (new_node []))
  ]

  length-marked : length marked ≡ length nodes
  unfolding record_route
  length-marked = ground (arith, length-set nodes cur written)

  find_child-marked : (i : ℕ) (s : Str) → find_child marked i s ≡ find_child nodes i s
  unfolding find_child
  find_child-marked i s = rw (
    (marked-node i).1,
    scan_children-agree nodes marked s (node_at nodes i).children (λ c _. (marked-node c).0),
  )

  reach-marked : (i : ℕ) (ss : List Str) → reach marked i ss ≡ reach nodes i ss
  unfolding reach
  reach-marked i [] = refl
  reach-marked i (s ∷ ss) = split (find_child nodes i s) refl (λ c. reach-marked c ss)
    where
      split :
          (o : Option ℕ)
          → find_child nodes i s ≡ o
          → ((c : ℕ) → reach marked c ss ≡ reach nodes c ss)
          → reach marked i (s ∷ ss) ≡ reach nodes i (s ∷ ss)
      split none d ih = rw (find_child-marked i s, d, reach)
      split (some c) d ih = rw (find_child-marked i s, d, reach) (ih c)

  marked-linked :
      (i c : ℕ)
      → i < length marked
      → contains c (node_at marked i).children ≡ true
      → (c < length marked) × (paths c ≡ paths i ++ ((node_at marked c).segment ∷ []))
  marked-linked i c h m = ground (arith, length-marked, marked-node i, marked-node c, w.linked i c)

  marked-distinct : (i : ℕ) → i < length marked → nodup (node_at marked i).children ≡ true
  marked-distinct i h = ground (arith, length-marked, marked-node i, w.distinct i)

  pub marked-Labelled : Labelled marked paths
  marked-Labelled = record {
    rooted = rw length-marked w.rooted;
    sized = rw length-marked w.sized;
    slotted = λ i h. (marked-node i).2 ∙ w.slotted i (rw length-marked at h);
    distinct = marked-distinct;
    root_path = w.root_path;
    reached = λ i h. reach-marked 0 (paths i) ∙ w.reached i (rw length-marked at h);
    linked = marked-linked;
  }

  -- The slot of the node is written if it was free.
  pub route_at-marked : route_at marked (paths cur) slot ≡ (
      if route_at nodes (paths cur) slot == invalid_route
      then route
      else route_at nodes (paths cur) slot)
  unfolding route_at record_route
  route_at-marked = ground (
    arith,
    reach-marked 0 (paths cur),
    w.reached cur here,
    w.slotted cur here,
    get_or-set_self nodes cur written (new_node []) here,
    get_or-set_self (node_at nodes cur).route_idx_by_method slot route invalid_route,
  )

  -- No other slot and no other path is affected.
  pub route_at-marked_other :
      (ss : List Str) (t : ℕ)
      → (ss ≢ paths cur) ⊎ (t ≢ slot)
      → route_at marked ss t ≡ route_at nodes ss t
  unfolding route_at record_route
  route_at-marked_other ss t ne = elim (Option-cases (reach nodes 0 ss)) [
    | inl missing ↦ ground (arith, reach-marked 0 ss, missing)
    | inr (i, found) ↦ elim (Bool-cases (i == cur)) [
      | inr other ↦
          ground (arith, reach-marked 0 ss, found, get_or-set_ne nodes cur i written (new_node []))
      | inl same ↦ ground (
        arith,
        reach-marked 0 ss,
        found,
        reach-injective nodes paths w ss (paths cur) cur,
        w.reached cur here,
        get_or-set_self nodes cur written (new_node []) here,
        get_or-set_ne (node_at nodes cur).route_idx_by_method slot t route invalid_route,
        ne,
      )
    ]
  ]
