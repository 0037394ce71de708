-- ===== src/Trie/Rollback.antt =====
-- A failed `insert` undoes all it did.
use route_lang.Common.{
  ℕ, ◌+◌, ◌≤◌, ◌<◌, ◌%◌, ◌^◌, ◌==◌, ◌≡◌, refl, ap, ◌∙◌, Bool, true, false, ◌||◌, Option, none, some,
  List, [], ◌∷◌, ◌++◌, length, leb, set, take, All, arith, length-set, get_or-append_left,
  set-append_left, set-set, set-get_or, take-append_left, take-length, length-take,
}
use route_lang.Method.{slot_invalid, route_method_slot}
use route_lang.Tokens.{Str, Tokens, tokenize_segments, max_path_segments}
use route_lang.Tokens.Segments.{segments, tokenize_segments-segments, segments-non_empty}
use route_lang.Trie.{
  TrieNode, new_node, max_nodes, max_children, Nodes, node_at, find_child, add_child, Walked,
  arrived, failed, insert_walk, drop_last, pop_children, rollback, insert_done, insert,
}
use route_lang.Trie.Nodes.{grown, add_child_lem, length-add_child, add_child-cur}
use route_lang.Trie.Reach.{Labelled, find_child-path}
use route_lang.Trie.Grow.{new_paths, pool-Labelled}
use route_lang.Trie.Insert.{IsTrie, NonEmpty}

All-below : (m n : ℕ) (xs : List ℕ) → m ≤ n → All (λ p. p < m) xs → All (λ p. p < n) xs
All-below m n [] h a = tt
All-below m n (x ∷ xs) h a = (omega (arith, a.0), All-below m n xs h a.1)

drop_last-snoc : (xs : List ℕ) (x : ℕ) → drop_last (xs ++ (x ∷ [])) ≡ xs
unfolding drop_last
drop_last-snoc [] x = refl
drop_last-snoc (y ∷ []) x = refl
drop_last-snoc (y ∷ z ∷ xs) x = ap (◌∷◌ y) (drop_last-snoc (z ∷ xs) x)

-- Popping children of old nodes does not touch a node at the end of the pool.
pop_children-append :
    (nodes tail : Nodes) (pushed : List ℕ)
    → All (λ p. p < length nodes) pushed
    → pop_children (nodes ++ tail) pushed ≡ pop_children nodes pushed ++ tail
unfolding pop_children
pop_children-append nodes tail [] h = refl
pop_children-append nodes tail (p ∷ ps) h =
    rw (get_or-append_left nodes tail p (new_node []) h.0, set-append_left nodes tail p popped h.0)
      (pop_children-append (set nodes p popped) tail ps (rw (length-set nodes p popped) h.1))
  where
    popped : TrieNode
    popped = record (node_at nodes p) { children = drop_last (node_at nodes p).children }

length-pop_children :
    (nodes : Nodes) (pushed : List ℕ) → length (pop_children nodes pushed) ≡ length nodes
unfolding pop_children
length-pop_children nodes [] = refl
length-pop_children nodes (p ∷ ps) =
    length-pop_children (set nodes p popped) ps ∙ length-set nodes p popped
  where
    popped : TrieNode
    popped = record (node_at nodes p) { children = drop_last (node_at nodes p).children }

-- Undoing one more push is undoing the pushes before it.
rollback-add_child :
    (saved : ℕ) (nodes : Nodes) (cur : ℕ) (s : Str) (pushed : List ℕ)
    → cur < length nodes
    → length nodes < max_nodes
    → saved ≤ length nodes
    → All (λ p. p < length nodes) pushed
    → rollback saved (add_child nodes cur s) (cur ∷ pushed) ≡ rollback saved nodes pushed
unfolding rollback pop_children
rollback-add_child saved nodes cur s pushed here room n h =
    rw
      (
        add_child-cur nodes cur s here room,
        drop_last-snoc (node_at nodes cur).children (length nodes),
        add_child_lem nodes cur s here room,
      )
      (ap (λ p. take saved (pop_children p pushed)) restored
        ∙ ap (take saved) (pop_children-append nodes (new_node s ∷ []) pushed h)
        ∙ take-append_left saved (pop_children nodes pushed) (new_node s ∷ [])
            (rw (length-pop_children nodes pushed) n))
  where
    g : TrieNode
    g = grown nodes cur s here room

    restored :
        set (set nodes cur g ++ (new_node s ∷ [])) cur (node_at nodes cur)
        ≡ nodes ++ (new_node s ∷ [])
    restored =
        set-append_left (set nodes cur g) (new_node s ∷ []) cur (node_at nodes cur)
          (rw (length-set nodes cur g) here)
        ∙ ap (λ p. p ++ (new_node s ∷ []))
            (set-set nodes cur g (node_at nodes cur) ∙ set-get_or nodes cur (new_node []))

-- Wherever the loop of `insert` fails, rolling back gives what rolling back where it started would
-- have given. The check that `pushed_parents` is full is never met.
insert_walk-failed :
    (segs : List Str) (nodes : Nodes) (paths : ℕ → List Str) (pushed : List ℕ) (cur saved : ℕ)
    (pool : Nodes) (left : List ℕ)
    → NonEmpty segs
    → Labelled nodes paths
    → cur < length nodes
    → saved ≤ length nodes
    → All (λ p. p < length nodes) pushed
    → length pushed + length segs ≤ max_path_segments
    → insert_walk segs nodes pushed cur ≡ failed pool left
    → rollback saved pool left ≡ rollback saved nodes pushed
unfolding insert_walk
insert_walk-failed [] nodes paths pushed cur saved pool left ne w h n k d e = absurd (ground arith)
insert_walk-failed (s ∷ segs) nodes paths pushed cur saved pool left ne w h n k d e =
    split (find_child nodes cur s) refl
      (leb max_nodes (length nodes) || leb max_children (length (node_at nodes cur).children)) refl
      (λ q qs ps c g i a b j. insert_walk-failed segs q qs ps c saved pool left ne.1 g i a b j)
  where
    split :
        (o : Option ℕ)
        → find_child nodes cur s ≡ o
        → (full : Bool)
        → (leb max_nodes (length nodes) || leb max_children (length (node_at nodes cur).children))
          ≡ full
        → ((q : Nodes) (qs : ℕ → List Str) (ps : List ℕ) (c : ℕ)
            → Labelled q qs
            → c < length q
            → saved ≤ length q
            → All (λ p. p < length q) ps
            → length ps + length segs ≤ max_path_segments
            → insert_walk segs q ps c ≡ failed pool left
            → rollback saved pool left ≡ rollback saved q ps)
        → rollback saved pool left ≡ rollback saved nodes pushed
    split (some c) f full g ih =
        ih nodes paths pushed c w (find_child-path nodes paths w cur s c h f).0 n k (omega arith)
          (ground (arith, f))
    split none f true g ih = ground (arith, f, g)
    split none f false g ih =
        let room : length nodes < max_nodes = ground (arith, g) in
        let index : length nodes % 2 ^ 16 ≡ length nodes = omega arith in
        let longer : length (add_child nodes cur s) ≡ length nodes + 1 =
          length-add_child nodes cur s h room in
        ih (add_child nodes cur s) (new_paths nodes paths w cur s h room f ne.0) (cur ∷ pushed)
          (length nodes) (pool-Labelled nodes paths w cur s h room f ne.0) (omega (arith, longer))
          (omega (arith, longer))
          (
            omega (arith, longer),
            All-below (length nodes) (length (add_child nodes cur s)) pushed (omega (arith, longer))
                k,
          )
          (omega arith) (ground (arith, f, g, index))
        ∙ rollback-add_child saved nodes cur s pushed h room n k

few_segments :
    (path : Str)
    → (tokenize_segments path).overflow ≡ false
    → length (tokenize_segments path).segs ≤ max_path_segments
few_segments path e = omega (
  arith,
  ap (λ (t : Tokens). length t.segs) (tokenize_segments-segments path),
  length-take max_path_segments (segments path),
)

-- A call of `insert` that returns false leaves the trie as it was, whatever it had added before it
-- failed.
pub insert-false :
    (nodes : Nodes) (path : Str) (method route : ℕ)
    → IsTrie nodes
    → (insert nodes path method route).1 ≡ false
    → (insert nodes path method route).0 ≡ nodes
unfolding insert
insert-false nodes path method route v e =
    split (slot == slot_invalid) refl t.overflow refl (insert_walk t.segs nodes [] 0) refl
  where
    slot : ℕ
    slot = route_method_slot method

    t : Tokens
    t = tokenize_segments path

    split :
        (bad : Bool)
        → (slot == slot_invalid) ≡ bad
        → (deep : Bool) → t.overflow ≡ deep
        → (walked : Walked) → insert_walk t.segs nodes [] 0 ≡ walked
        → (insert nodes path method route).0 ≡ nodes
    split true b deep d walked f = ground (arith, b)
    split false b true d walked f = ground (arith, b, d)
    split false b false d (arrived pool cur) f = absurd (ground (arith, b, d, f))
    split false b false d (failed pool left) f =
        rw (b, d, f, insert, insert_done)
          (insert_walk-failed t.segs nodes v.paths [] 0 (length nodes) pool left
              (segments-non_empty path) v.tree v.tree.rooted (omega arith) tt
              (omega (arith, few_segments path d)) f
            ∙ take-length nodes (length nodes) (omega arith))
