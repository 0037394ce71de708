-- ===== src/Trie/Reach.antt =====
-- The trie as a set of label paths: which node a path of segments leads to.
use route_lang.Common.{
  nodup, ℕ, ◌≤◌, ◌<◌, ◌≡◌, get_or, refl, true, Option, none, some, List, [], ◌∷◌, ◌++◌, length,
  get_or, arith, contains,
}
use mathlib.Core.List.{append_assoc, append-nil}
use route_lang.Method.{method_slots}
use route_lang.Tokens.{Str}
use route_lang.Trie.{Nodes, node_at, invalid_route, find_child, max_nodes}
use route_lang.Trie.Nodes.{find_child-some}

unfoldable pub reach : Nodes → ℕ → List Str → Option ℕ
reach nodes i [] = some i
reach nodes i (s ∷ ss) = elim (find_child nodes i s) [ none ↦ none | some c ↦ reach nodes c ss ]

-- A pool is a tree, whose nodes have ten method slots: each node has one path of labels, which leads to it, and a child has its
-- parent's path and its own segment behind. The root is node 0.
pub record Labelled (nodes : Nodes) (paths : ℕ → List Str) : Type 0 where
  pub rooted : 0 < length nodes
  pub sized : length nodes ≤ max_nodes
  pub slotted :
      (i : ℕ) → i < length nodes → length (node_at nodes i).route_idx_by_method ≡ method_slots
  pub distinct : (i : ℕ) → i < length nodes → nodup (node_at nodes i).children ≡ true
  pub root_path : paths 0 ≡ []
  pub reached : (i : ℕ) → i < length nodes → reach nodes 0 (paths i) ≡ some i
  pub linked :
      (i c : ℕ)
      → i < length nodes
      → contains c (node_at nodes i).children ≡ true
      → (c < length nodes) × (paths c ≡ paths i ++ ((node_at nodes c).segment ∷ []))

-- The route that the trie holds for a path of labels and a method slot.
unfoldable pub route_at : Nodes → List Str → ℕ → ℕ
route_at nodes ss slot = elim (reach nodes 0 ss) [
  | none ↦ invalid_route
  | some i ↦ get_or (node_at nodes i).route_idx_by_method slot invalid_route
]

pub reach-append :
    (nodes : Nodes) (i : ℕ) (xs ys : List Str)
    → reach nodes i (xs ++ ys)
      ≡ (elim (reach nodes i xs) [ none ↦ none | some j ↦ reach nodes j ys ])
unfolding reach
reach-append nodes i [] ys = refl
reach-append nodes i (s ∷ xs) ys =
    split (find_child nodes i s) refl (λ c. reach-append nodes c xs ys)
  where
    split :
        (o : Option ℕ)
        → find_child nodes i s ≡ o
        → ((c : ℕ)
            → reach nodes c (xs ++ ys)
              ≡ (elim (reach nodes c xs) [ none ↦ none | some j ↦ reach nodes j ys ]))
        → reach nodes i ((s ∷ xs) ++ ys)
          ≡ (elim (reach nodes i (s ∷ xs)) [ none ↦ none | some j ↦ reach nodes j ys ])
    split none e ih = rw (e, reach)
    split (some c) e ih = rw (e, reach) (ih c)

module _ (nodes : Nodes) (paths : ℕ → List Str) (w : Labelled nodes paths) where
  pub find_child-path :
      (i : ℕ) (s : Str) (c : ℕ)
      → i < length nodes
      → find_child nodes i s ≡ some c
      → (c < length nodes) × (paths c ≡ paths i ++ (s ∷ []))
  find_child-path i s c h e = ground (arith, find_child-some nodes i s c e, w.linked i c h)

  -- A node that is reached has the path that leads to it.
  pub reach-paths :
      (i : ℕ) (ss : List Str) (j : ℕ)
      → i < length nodes
      → reach nodes i ss ≡ some j
      → (j < length nodes) × (paths j ≡ paths i ++ ss)
  unfolding reach
  reach-paths i [] j h e = ground (arith, append-nil (paths i))
  reach-paths i (s ∷ ss) j h e = split (find_child nodes i s) refl (λ c. reach-paths c ss j)
    where
      split :
          (o : Option ℕ)
          → find_child nodes i s ≡ o
          → ((c : ℕ)
              → c < length nodes
              → reach nodes c ss ≡ some j
              → (j < length nodes) × (paths j ≡ paths c ++ ss))
          → (j < length nodes) × (paths j ≡ paths i ++ (s ∷ ss))
      split none d ih = absurd (ground (arith, d))
      split (some c) d ih =
          ground (arith, d, find_child-path i s c h d, ih c, append_assoc (paths i) (s ∷ []) ss)

  -- A path leads to one node at most, and a node has one path.
  pub reach-injective :
      (ss ts : List Str) (j : ℕ) → reach nodes 0 ss ≡ some j → reach nodes 0 ts ≡ some j → ss ≡ ts
  reach-injective ss ts j e f =
      ground (arith, reach-paths 0 ss j, reach-paths 0 ts j, w.root_path, w.rooted)
