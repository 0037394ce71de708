-- ===== src/Trie/Insert.antt =====
-- What `insert` does to the routes that the trie holds.
use route_lang.Common.{
  nodup, ℕ, zero, suc, ◌%◌, ◌^◌, ◌≤◌, ◌<◌, ◌==◌, ◌≡◌, ◌≢◌, ◌⊎◌, refl, ap, subst, sym, ◌∙◌, Bool,
  true, false, ◌||◌, Option, none, some, List, [], ◌∷◌, ◌++◌, if◌then◌else◌, length, leb, All,
  arith, contains, get_or-replicate,
}
use mathlib.Core.List.{append_assoc, append-nil}
use route_lang.Method.{method_slots, slot_invalid, route_method_slot}
use route_lang.Method.Laws.{route_method_slot_cases}
use route_lang.Tokens.{Str, Tokens, tokenize_segments}
use route_lang.Tokens.Segments.{segments-non_empty}
use route_lang.Trie.{
  new_node, invalid_route, max_nodes, max_children, Nodes, node_at, find_child, add_child, Walked,
  arrived, failed, insert_walk, record_route, insert_done, insert, clear,
}
use route_lang.Trie.Nodes.{length-add_child}
use route_lang.Trie.Reach.{reach, route_at, Labelled, find_child-path}
use route_lang.Trie.Record.{marked-Labelled, route_at-marked, route_at-marked_other}
use route_lang.Trie.Grow.{new_paths, new_path, pool-Labelled, route_at-add_child}

-- A pool that is a tree, with its paths.
pub record IsTrie (nodes : Nodes) : Type 0 where
  pub paths : ℕ → List Str
  pub tree : Labelled nodes paths

abbrev pub NonEmpty : List Str → Type 0
NonEmpty = All (λ s. 0 < length s)

-- The loop of `insert` leads to the node of the path and changes no route.
record Arrived (nodes : Nodes) (from : List Str) (segs : List Str) (pool : Nodes) (cur : ℕ)
    : Type 0 where
  paths : ℕ → List Str
  tree : Labelled pool paths
  inside : cur < length pool
  path : paths cur ≡ from ++ segs
  kept : (ss : List Str) (slot : ℕ) → route_at pool ss slot ≡ route_at nodes ss slot

insert_walk-Arrived :
    (segs : List Str) (nodes : Nodes) (paths : ℕ → List Str) (pushed : List ℕ) (cur : ℕ)
    (pool : Nodes) (end : ℕ)
    → NonEmpty segs
    → Labelled nodes paths
    → cur < length nodes
    → insert_walk segs nodes pushed cur ≡ arrived pool end
    → Arrived nodes (paths cur) segs pool end
unfolding insert_walk
insert_walk-Arrived [] nodes paths pushed cur pool end ne w h e =
    let same : nodes ≡ pool = cc in
    let at : cur ≡ end = cc in
    subst (λ p. Arrived nodes (paths cur) [] p end) same
      (subst (λ k. Arrived nodes (paths cur) [] nodes k) at
        (record {
          paths = paths;
          tree = w;
          inside = h;
          path = sym (append-nil (paths cur));
          kept = λ ss slot. refl;
        }))
insert_walk-Arrived (s ∷ segs) nodes paths pushed cur pool end ne w h e =
    split (find_child nodes cur s) refl
      (leb max_nodes (length nodes) || leb max_children (length (node_at nodes cur).children)) refl
      (leb 64 (length pushed)) refl
      (λ q qs ps c g k i. insert_walk-Arrived segs q qs ps c pool end ne.1 g k i)
  where
    split :
        (o : Option ℕ)
        → find_child nodes cur s ≡ o
        → (full : Bool)
        → (leb max_nodes (length nodes) || leb max_children (length (node_at nodes cur).children))
          ≡ full
        → (deep : Bool) → leb 64 (length pushed) ≡ deep
        → ((q : Nodes) (qs : ℕ → List Str) (ps : List ℕ) (c : ℕ)
            → Labelled q qs
            → c < length q
            → insert_walk segs q ps c ≡ arrived pool end
            → Arrived q (qs c) segs pool end)
        → Arrived nodes (paths cur) (s ∷ segs) pool end
    split (some c) d full f deep p ih =
        let l : (c < length nodes) × (paths c ≡ paths cur ++ (s ∷ [])) =
          find_child-path nodes paths w cur s c h d in
        let a : Arrived nodes (paths c) segs pool end =
          ih nodes paths pushed c w l.0 (ground (arith, d)) in
        record {
          paths = a.paths;
          tree = a.tree;
          inside = a.inside;
          path = a.path ∙ ap (λ t. t ++ segs) l.1 ∙ append_assoc (paths cur) (s ∷ []) segs;
          kept = a.kept;
        }
    split none d true f deep p ih = absurd (ground (arith, d, f))
    split none d false f true p ih = absurd (ground (arith, d, f, p))
    split none d false f false p ih =
        let room : length nodes < max_nodes = ground (arith, f) in
        let index : length nodes % 2 ^ 16 ≡ length nodes = omega arith in
        let a : Arrived (add_child nodes cur s)
            (new_paths nodes paths w cur s h room d ne.0 (length nodes)) segs pool end =
          ih (add_child nodes cur s) (new_paths nodes paths w cur s h room d ne.0) (cur ∷ pushed)
            (length nodes) (pool-Labelled nodes paths w cur s h room d ne.0)
            (omega (arith, length-add_child nodes cur s h room)) (ground (arith, d, f, p, index)) in
        record {
          paths = a.paths;
          tree = a.tree;
          inside = a.inside;
          path =
              a.path
              ∙ ap (λ t. t ++ segs) (new_path nodes paths w cur s h room d ne.0)
              ∙ append_assoc (paths cur) (s ∷ []) segs;
          kept = λ ss slot.
              a.kept ss slot ∙ route_at-add_child nodes paths w cur s h room d ne.0 ss slot;
        }

-- What a call of `insert` that returns true has done to `nodes`.
pub record Inserted (nodes : Nodes) (segs : List Str) (slot route : ℕ) (pool : Nodes) : Type 0 where
  pub trie : IsTrie pool
  pub written :
      route_at pool segs slot
      ≡ (if route_at nodes segs slot == invalid_route then route else route_at nodes segs slot)
  pub others :
      (ss : List Str) (t : ℕ) → (ss ≢ segs) ⊎ (t ≢ slot) → route_at pool ss t ≡ route_at nodes ss t

Arrived-Inserted :
    (nodes : Nodes) (segs : List Str) (slot route : ℕ) (pool : Nodes) (cur : ℕ)
    → slot < method_slots
    → Arrived nodes [] segs pool cur
    → Inserted nodes segs slot route (record_route pool cur slot route)
Arrived-Inserted nodes segs slot route pool cur h a = record {
  trie = record {
    paths = a.paths;
    tree = marked-Labelled pool a.paths a.tree cur slot route a.inside h;
  };
  written = ground (
    arith,
    a.path,
    a.kept segs slot,
    route_at-marked pool a.paths a.tree cur slot route a.inside h,
  );
  others = λ ss t ne.
      route_at-marked_other pool a.paths a.tree cur slot route a.inside h ss t (rw a.path ne)
      ∙ a.kept ss t;
}

-- `insert` that returns true leaves a trie in which the route of the tokenized path and of the
-- method's slot is the new one, unless there was one before, which stays; every other path and
-- every other slot has the route that it had.
pub insert-Inserted :
    (nodes : Nodes) (path : Str) (method route : ℕ)
    → IsTrie nodes
    → (insert nodes path method route).1 ≡ true
    → Inserted nodes
        (tokenize_segments path).segs
        (route_method_slot method)
        route
        (insert nodes path method route).0
unfolding insert
insert-Inserted nodes path method route v e =
    split (slot == slot_invalid) refl t.overflow refl (insert_walk t.segs nodes [] 0) refl
  where
    slot : ℕ
    slot = route_method_slot method

    t : Tokens
    t = tokenize_segments path

    split :
        (bad : Bool)
        → (slot == slot_invalid) ≡ bad
        → (deep : Bool) → t.overflow ≡ deep
        → (walked : Walked) → insert_walk t.segs nodes [] 0 ≡ walked
        → Inserted nodes t.segs slot route (insert nodes path method route).0
    split true b deep d walked f = absurd (ground (arith, b))
    split false b true d walked f = absurd (ground (arith, b, d))
    split false b false d (failed pool pushed) f = absurd (ground (arith, b, d, f))
    split false b false d (arrived pool cur) f =
        let inside : slot < method_slots = ground (arith, route_method_slot_cases method) in
        let a : Arrived nodes (v.paths 0) t.segs pool cur =
          insert_walk-Arrived t.segs nodes v.paths [] 0 pool cur (segments-non_empty path) v.tree
            v.tree.rooted f in
        let from_root : Arrived nodes [] t.segs pool cur = rw v.tree.root_path at a in
        rw (b, d, f, insert, insert_done)
          (Arrived-Inserted nodes t.segs slot route pool cur inside from_root)

clear_slotted :
    (i : ℕ) → i < length clear → length (node_at clear i).route_idx_by_method ≡ method_slots
unfolding clear new_node
clear_slotted zero h = refl
clear_slotted (suc i) h = absurd (omega arith)

clear_distinct : (i : ℕ) → i < length clear → nodup (node_at clear i).children ≡ true
unfolding clear new_node
clear_distinct zero h = refl
clear_distinct (suc i) h = absurd (omega arith)

clear_reached : (i : ℕ) → i < length clear → reach clear 0 [] ≡ some i
unfolding clear reach
clear_reached zero h = refl
clear_reached (suc i) h = absurd (omega arith)

clear_linked :
    (i c : ℕ)
    → i < length clear
    → contains c (node_at clear i).children ≡ true
    → (c < length clear) × (◌≡◌ {A = List Str} [] ([] ++ ((node_at clear c).segment ∷ [])))
unfolding clear new_node
clear_linked zero c h m = absurd (ground arith)
clear_linked (suc i) c h m = absurd (omega arith)

-- The empty trie.
pub clear-IsTrie : IsTrie clear
clear-IsTrie = record {
  paths = λ i. [];
  tree = record {
    rooted = rooted;
    sized = sized;
    slotted = clear_slotted;
    distinct = clear_distinct;
    root_path = refl;
    reached = clear_reached;
    linked = clear_linked;
  };
}
  where
    rooted : 0 < length clear
    rooted = unfold clear in omega arith

    sized : length clear ≤ max_nodes
    sized = unfold clear in omega arith

-- It holds no route.
pub route_at-clear : (ss : List Str) (slot : ℕ) → route_at clear ss slot ≡ invalid_route
unfolding clear new_node reach route_at find_child
route_at-clear [] slot = get_or-replicate method_slots slot invalid_route
route_at-clear (s ∷ ss) slot = ground arith
