-- ===== src/Trie.antt =====
-- `RouteTrie`: include/rut/runtime/route_trie.h and the storage half of
-- src/runtime/route_trie.cc. The node pool is a list, a node index a position in it.
pub mod Nodes
pub mod Reach
pub mod Grow
pub mod Record
pub mod Insert
pub mod Rollback
pub mod Match
mod Tests
use route_lang.Common.{
  ℕ, ◌+◌, ◌-◌, ◌≤◌, ◌<◌, ◌%◌, ◌^◌, Bool, true, false, ◌&&◌, ◌||◌, Option, none, some, List, [], ◌∷◌,
  ◌++◌, ltb, leb, ◌==◌, if◌then◌else◌, length, get_or, set, take, replicate,
}
use route_lang.Method.{method_slots, slot_invalid, route_method_slot}
use route_lang.Tokens.{Str, Tokens, tokenize_segments}

-- `Str::eq` of include/rut/common/types.h: the lengths, then the bytes.
pub eq_bytes : Str → Str → Bool
eq_bytes [] b = true
eq_bytes (x ∷ a) [] = true
eq_bytes (x ∷ a) (y ∷ b) = x == y && eq_bytes a b

unfoldable pub str_eq : Str → Str → Bool
unfolding eq_bytes
str_eq a b = length a == length b && eq_bytes a b

abbrev pub invalid_route : ℕ
invalid_route = 0xffff

abbrev pub max_children : ℕ
max_children = 128

abbrev pub max_nodes : ℕ
max_nodes = 4097

pub record TrieNode : Type 0 where
  pub segment : Str
  pub children : List ℕ
  pub route_idx_by_method : List ℕ

-- `TrieNode nn{}; nn.segment = s`.
pub new_node : Str → TrieNode
new_node s = record {
  segment = s;
  children = [];
  route_idx_by_method = replicate method_slots invalid_route;
}

abbrev pub Nodes : Type 0
Nodes = List TrieNode

-- `nodes[i]`; no index out of range is ever read.
abbrev pub node_at : Nodes → ℕ → TrieNode
node_at nodes i = get_or nodes i (new_node [])

-- `RouteTrie::clear`.
unfoldable pub clear : Nodes
clear = new_node [] ∷ []

pub scan_children : Nodes → Str → List ℕ → Option ℕ
scan_children nodes s [] = none
scan_children nodes s (i ∷ is) =
    if str_eq (node_at nodes i).segment s then some i else scan_children nodes s is

-- `none` is `kInvalidNodeIdx`, which is no index of the pool.
pub find_child : Nodes → ℕ → Str → Option ℕ
unfolding scan_children
find_child nodes parent s =
    if length s == 0 then none else scan_children nodes s (node_at nodes parent).children

unfoldable pub is_param_segment : Str → Bool
is_param_segment [] = false
is_param_segment (c ∷ s) = c == b':'

-- The two pushes that add a child: the node to the pool, its index to the parent's children.
pub add_child : Nodes → ℕ → Str → Nodes
add_child nodes parent s =
    let pool : Nodes = nodes ++ (new_node s ∷ []) in
    let p : TrieNode = node_at pool parent in
    set pool parent (record p { children = p.children ++ ((length nodes % 2 ^ 16) ∷ []) })

-- The loop of `insert`: it ends at the node of the path, or fails where `insert` rolls back.
-- `pushed_parents` has its last entry first.
pub data Walked : Type 0 where
  arrived : Nodes → ℕ → Walked
  failed : Nodes → List ℕ → Walked

pub insert_walk : List Str → Nodes → List ℕ → ℕ → Walked
unfolding find_child add_child
insert_walk [] nodes pushed cur = arrived nodes cur
insert_walk (s ∷ segs) nodes pushed cur = elim (find_child nodes cur s) [
  | some child ↦ insert_walk segs nodes pushed child
  | none ↦
      elim (leb max_nodes (length nodes)
        || leb max_children (length (node_at nodes cur).children)) [
          | true ↦ failed nodes pushed
          | false ↦ elim (leb 64 (length pushed)) [
            | true ↦ failed (add_child nodes cur s) pushed
            | false ↦
                insert_walk segs (add_child nodes cur s) (cur ∷ pushed) (length nodes % 2 ^ 16)
          ]
        ]
]

pub drop_last : List ℕ → List ℕ
drop_last [] = []
drop_last (x ∷ []) = []
drop_last (x ∷ y ∷ xs) = x ∷ drop_last (y ∷ xs)

-- `nodes[p].children.len--` for each parent, the last one pushed first.
pub pop_children : Nodes → List ℕ → Nodes
unfolding drop_last
pop_children nodes [] = nodes
pop_children nodes (p ∷ ps) =
    let n : TrieNode = node_at nodes p in
    pop_children (set nodes p (record n { children = drop_last n.children })) ps

pub rollback : ℕ → Nodes → List ℕ → Nodes
unfolding pop_children
rollback saved nodes pushed = take saved (pop_children nodes pushed)

-- `if (route_idx_by_method[slot] == kInvalidRoute) route_idx_by_method[slot] = route_idx`.
pub record_route : Nodes → ℕ → ℕ → ℕ → Nodes
record_route nodes cur slot route =
    let n : TrieNode = node_at nodes cur in
    if get_or n.route_idx_by_method slot invalid_route == invalid_route
    then set nodes cur (record n { route_idx_by_method = set n.route_idx_by_method slot route })
    else nodes

insert_done : Nodes → ℕ → ℕ → Walked → Nodes × Bool
unfolding rollback record_route
insert_done nodes slot route (arrived nodes' cur) = (record_route nodes' cur slot route, true)
insert_done nodes slot route (failed nodes' pushed) = (rollback (length nodes) nodes' pushed, false)

unfoldable pub insert : Nodes → Str → ℕ → ℕ → Nodes × Bool
unfolding insert_walk insert_done
insert nodes path method route =
    let slot : ℕ = route_method_slot method in
    let t : Tokens = tokenize_segments path in
    if slot == slot_invalid
    then (nodes, false)
    else if t.overflow
    then (nodes, false)
    else insert_done nodes slot route (insert_walk t.segs nodes [] 0)
