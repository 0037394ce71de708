-- ===== src/Trie/Grow.antt =====
-- A new child keeps the pool a tree, and changes the answer for its own path only.
use route_lang.Common.{
  nodup, nodup-snoc, Option-cases, replicate, get_or-replicate, ℕ, ◌<◌, ◌==◌, ◌≡◌, ◌≢◌, refl, ap,
  subst, true, false, Bool-cases, Option, none, some, List, [], ◌∷◌, ◌++◌, if◌then◌else◌, length,
  arith, inl, inr, contains, contains-append,
}
use route_lang.Tokens.{Str}
use route_lang.Trie.{
  invalid_route, new_node, Nodes, node_at, find_child, scan_children, add_child, max_nodes, str_eq,
}
use route_lang.Trie.Nodes.{
  str_eq_iff, find_child-some, scan_children-agree, scan_children-snoc, length-add_child,
  add_child-cur, add_child-new, add_child-other, add_child-old,
}
use route_lang.Method.{method_slots}
use route_lang.Trie.Reach.{route_at, reach, Labelled, reach-append, reach-paths}

module _ (nodes : Nodes) (paths : ℕ → List Str) (w : Labelled nodes paths) (cur : ℕ) (s : Str)
    (here : cur < length nodes) (room : length nodes < max_nodes)
    (absent : find_child nodes cur s ≡ none) (full : 0 < length s) where
  abbrev pub pool : Nodes
  pool = add_child nodes cur s

  scan-old :
      (i : ℕ) (t : Str)
      → i < length nodes
      → scan_children pool t (node_at nodes i).children
        ≡ scan_children nodes t (node_at nodes i).children
  scan-old i t h =
      scan_children-agree nodes pool t (node_at nodes i).children
        (λ c m. (add_child-old nodes cur s here room c (w.linked i c h m).0).0)

  pub find_child-other :
      (i : ℕ) (t : Str) → i < length nodes → i ≢ cur → find_child pool i t ≡ find_child nodes i t
  unfolding find_child
  find_child-other i t h ne = rw (add_child-other nodes cur s here room i h ne, scan-old i t h)

  pub find_child-cur :
      (t : Str)
      → find_child pool cur t ≡ (elim (find_child nodes cur t) [
        | some c ↦ some c
        | none ↦ if str_eq s t then some (length nodes) else none
      ])
  unfolding find_child new_node
  find_child-cur t = ground (
    arith,
    add_child-cur nodes cur s here room,
    add_child-new nodes cur s here room,
    scan_children-snoc pool t (node_at nodes cur).children (length nodes),
    scan-old cur t here,
    (str_eq_iff s t).0,
    ap {B = ℕ} (length {A = ℕ}) {x = s} {y = t},
  )

  pub find_child-new : (t : Str) → find_child pool (length nodes) t ≡ none
  unfolding find_child new_node scan_children
  find_child-new t = rw (add_child-new nodes cur s here room) (ground arith)

  find_child-keeps :
      (i : ℕ) (t : Str) (c : ℕ)
      → i < length nodes
      → find_child nodes i t ≡ some c
      → find_child pool i t ≡ some c
  find_child-keeps i t c h e = elim (Bool-cases (i == cur)) [
    | inl same ↦ ground (arith, find_child-cur t)
    | inr other ↦ ground (arith, find_child-other i t h)
  ]

  -- What was reached is still reached, at the same node.
  pub reach-keeps :
      (i : ℕ) (ss : List Str) (j : ℕ)
      → i < length nodes
      → reach nodes i ss ≡ some j
      → reach pool i ss ≡ some j
  unfolding reach
  reach-keeps i [] j h e = e
  reach-keeps i (t ∷ ss) j h e = split (find_child nodes i t) refl (λ c. reach-keeps c ss j)
    where
      split :
          (o : Option ℕ)
          → find_child nodes i t ≡ o
          → ((c : ℕ) → c < length nodes → reach nodes c ss ≡ some j → reach pool c ss ≡ some j)
          → reach pool i (t ∷ ss) ≡ some j
      split none d ih = absurd (ground (arith, d))
      split (some c) d ih = ground (
        arith,
        d,
        find_child-keeps i t c h d,
        find_child-some nodes i t c d,
        w.linked i c h,
        ih c,
      )

  -- The new path leads to the new node.
  reach-new_path : reach pool 0 (paths cur ++ (s ∷ [])) ≡ some (length nodes)
  unfolding reach
  reach-new_path = ground (
    arith,
    reach-append pool 0 (paths cur) (s ∷ []),
    reach-keeps 0 (paths cur) cur w.rooted (w.reached cur here),
    find_child-cur s,
    (str_eq_iff s s).1 refl,
  )

  abbrev pub new_paths : ℕ → List Str
  new_paths j = if j == length nodes then paths cur ++ (s ∷ []) else paths j

  old_path : (j : ℕ) → j < length nodes → new_paths j ≡ paths j
  old_path j h = ground arith

  pub new_path : new_paths (length nodes) ≡ paths cur ++ (s ∷ [])
  new_path = ground arith

  segment-new : (node_at pool (length nodes)).segment ≡ s
  unfolding new_node
  segment-new = rw (add_child-new nodes cur s here room)

  segment-old : (j : ℕ) → j < length nodes → (node_at pool j).segment ≡ (node_at nodes j).segment
  segment-old j h = (add_child-old nodes cur s here room j h).0

  abbrev IsLink : ℕ → ℕ → Type 0
  IsLink i c = (c < length pool) × (new_paths c ≡ new_paths i ++ ((node_at pool c).segment ∷ []))

  old-IsLink :
      (i c : ℕ) → i < length nodes → contains c (node_at nodes i).children ≡ true → IsLink i c
  old-IsLink i c h m =
      let l : (c < length nodes) × (paths c ≡ paths i ++ ((node_at nodes c).segment ∷ [])) =
        w.linked i c h m in
      (
        omega (arith, length-add_child nodes cur s here room),
        rw (old_path c l.0, old_path i h, segment-old c l.0) l.1,
      )

  new-IsLink : IsLink cur (length nodes)
  new-IsLink = (
    omega (arith, length-add_child nodes cur s here room),
    rw (new_path, old_path cur here, segment-new) refl,
  )

  cur-IsLink : (c : ℕ) → contains c (node_at pool cur).children ≡ true → IsLink cur c
  cur-IsLink c m = elim (Bool-cases (contains c (node_at nodes cur).children)) [
    | inl old ↦ old-IsLink cur c here old
    | inr no_old ↦ subst (IsLink cur) (last_one no_old) new-IsLink
  ]
    where
      last_one : contains c (node_at nodes cur).children ≡ false → length nodes ≡ c
      last_one no_old = ground (
        arith,
        add_child-cur nodes cur s here room,
        contains-append c (node_at nodes cur).children (length nodes ∷ []),
      )

  new_children : (node_at pool (length nodes)).children ≡ []
  unfolding new_node
  new_children = rw (add_child-new nodes cur s here room)

  new_linked :
      (i c : ℕ) → i < length pool → contains c (node_at pool i).children ≡ true → IsLink i c
  new_linked i c h m = elim (Bool-cases (i == cur)) [
    | inl at_cur ↦
        let e : cur ≡ i = ground arith in
        subst (λ k. contains c (node_at pool k).children ≡ true → IsLink k c) e (cur-IsLink c) m
    | inr other ↦ elim (Bool-cases (i == length nodes)) [
      | inl at_new ↦ absurd (ground (arith, new_children))
      | inr old ↦
          let lt : i < length nodes = ground (arith, length-add_child nodes cur s here room) in
          old-IsLink i c lt (ground (arith, add_child-other nodes cur s here room i lt))
    ]
  ]

  all_reached : (i : ℕ) → i < length pool → reach pool 0 (new_paths i) ≡ some i
  all_reached i h = elim (Bool-cases (i == length nodes)) [
    | inl at_new ↦ ground (arith, reach-new_path)
    | inr old ↦
        let lt : i < length nodes = ground (arith, length-add_child nodes cur s here room) in
        rw (old_path i lt) (reach-keeps 0 (paths i) i w.rooted (w.reached i lt))
  ]

  new_slots :
      (node_at pool (length nodes)).route_idx_by_method ≡ replicate method_slots invalid_route
  unfolding new_node
  new_slots = rw (add_child-new nodes cur s here room)

  all_slotted :
      (i : ℕ) → i < length pool → length (node_at pool i).route_idx_by_method ≡ method_slots
  all_slotted i h = elim (Bool-cases (i == length nodes)) [
    | inl at_new ↦ ground (arith, new_slots)
    | inr old ↦
        let lt : i < length nodes = ground (arith, length-add_child nodes cur s here room) in
        rw (add_child-old nodes cur s here room i lt).1 (w.slotted i lt)
  ]

  fresh : contains (length nodes) (node_at nodes cur).children ≡ false
  fresh = ground (arith, w.linked cur (length nodes) here)

  all_distinct : (i : ℕ) → i < length pool → nodup (node_at pool i).children ≡ true
  all_distinct i h = elim (Bool-cases (i == length nodes)) [
    | inl at_new ↦ ground (arith, new_children)
    | inr old ↦ elim (Bool-cases (i == cur)) [
      | inl at_cur ↦ ground (
        arith,
        add_child-cur nodes cur s here room,
        fresh,
        nodup-snoc (node_at nodes cur).children (length nodes),
        w.distinct cur here,
      )
      | inr other ↦
          let lt : i < length nodes = ground (arith, length-add_child nodes cur s here room) in
          ground (arith, add_child-other nodes cur s here room i lt, w.distinct i lt)
    ]
  ]

  pub pool-Labelled : Labelled pool new_paths
  pool-Labelled = record {
    rooted = omega (arith, length-add_child nodes cur s here room);
    sized = omega (arith, length-add_child nodes cur s here room);
    slotted = all_slotted;
    distinct = all_distinct;
    root_path = ground (arith, w.rooted, w.root_path);
    reached = all_reached;
    linked = new_linked;
  }

  -- Beyond what was reached before, only the new node is.
  reach-back :
      (ss : List Str) (j : ℕ)
      → reach pool 0 ss ≡ some j
      → j < length nodes
      → reach nodes 0 ss ≡ some j
  reach-back ss j e h =
      let p : paths j ≡ ss = ground (
        arith,
        reach-paths pool new_paths pool-Labelled 0 ss j,
        pool-Labelled.rooted,
        pool-Labelled.root_path,
        old_path j h,
      ) in
      subst (λ t. reach nodes 0 t ≡ some j) p (w.reached j h)

  no_reach : (ss : List Str) → reach pool 0 ss ≡ some (length nodes) → reach nodes 0 ss ≡ none
  no_reach ss e = elim (Option-cases (reach nodes 0 ss)) [
    | inl missing ↦ missing
    | inr (i, found) ↦ absurd (
        ground (
          arith,
          reach-keeps 0 ss i w.rooted found,
          reach-paths nodes paths w 0 ss i w.rooted found,
        ))
  ]

  -- The new node holds no route, so the routes are what they were.
  pub route_at-add_child :
      (ss : List Str) (slot : ℕ) → route_at pool ss slot ≡ route_at nodes ss slot
  unfolding route_at
  route_at-add_child ss slot = elim (Option-cases (reach pool 0 ss)) [
    | inl missing ↦ elim (Option-cases (reach nodes 0 ss)) [
      | inl e ↦ ground (arith, missing, e)
      | inr (i, found) ↦ absurd (ground (arith, missing, reach-keeps 0 ss i w.rooted found))
    ]
    | inr (j, found) ↦ elim (Bool-cases (j == length nodes)) [
      | inl at_new ↦
          ground
            (arith, found, new_slots, no_reach ss, get_or-replicate method_slots slot invalid_route)
      | inr old ↦
          let lt : j < length nodes = ground (
            arith,
            reach-paths pool new_paths pool-Labelled 0 ss j pool-Labelled.rooted found,
            length-add_child nodes cur s here room,
          ) in
          ground
            (arith, found, reach-back ss j found lt, (add_child-old nodes cur s here room j lt).1)
    ]
  ]
