-- ===== src/Trie/Nodes.antt =====
-- What `find_child` finds, and what `add_child` changes.
use route_lang.Common.{
  ℕ, ◌+◌, ◌%◌, ◌^◌, ◌<◌, ◌==◌, ◌≡◌, ◌≢◌, ◌↔◌, refl, subst, sym, ◌∙◌, true, Bool-cases, none, some,
  List, [], ◌∷◌, ◌++◌, if◌then◌else◌, length, get_or, set, arith, inl, inr, length-append,
  length-set, get_or-set_self, get_or-set_ne, get_or-append_left, set-append_left,
  get_or-append_end, contains,
}
use route_lang.Tokens.{Str}
use route_lang.Trie.{
  eq_bytes, str_eq, TrieNode, new_node, Nodes, node_at, scan_children, find_child, add_child,
  max_nodes,
}

eq_bytes→eq : (a b : Str) → length a ≡ length b → eq_bytes a b ≡ true → a ≡ b
unfolding eq_bytes
eq_bytes→eq [] [] h e = refl
eq_bytes→eq [] (y ∷ b) h e = absurd (omega arith)
eq_bytes→eq (x ∷ a) [] h e = absurd (omega arith)
eq_bytes→eq (x ∷ a) (y ∷ b) h e = ground (arith, eq_bytes→eq a b)

eq_bytes_refl : (a : Str) → eq_bytes a a ≡ true
unfolding eq_bytes
eq_bytes_refl [] = refl
eq_bytes_refl (x ∷ a) = ground (arith, eq_bytes_refl a)

-- `Str::eq` decides equality.
pub str_eq_iff : (a b : Str) → (str_eq a b ≡ true) ↔ (a ≡ b)
unfolding str_eq
str_eq_iff a b = (λ e. ground (arith, eq_bytes→eq a b), λ e. ground (arith, eq_bytes_refl a))

scan_children-some :
    (nodes : Nodes) (s : Str) (is : List ℕ) (c : ℕ)
    → scan_children nodes s is ≡ some c
    → (contains c is ≡ true) × ((node_at nodes c).segment ≡ s)
unfolding scan_children
scan_children-some nodes s [] c e = absurd (ground arith)
scan_children-some nodes s (i ∷ is) c e =
    ground (arith, str_eq_iff (node_at nodes i).segment s, scan_children-some nodes s is c)

-- A child that is found is a child, and has the segment asked for, which is not empty.
pub find_child-some :
    (nodes : Nodes) (p : ℕ) (s : Str) (c : ℕ)
    → find_child nodes p s ≡ some c
    → (contains c (node_at nodes p).children ≡ true)
      × ((node_at nodes c).segment ≡ s)
      × (0 < length s)
unfolding find_child
find_child-some nodes p s c e =
    ground (arith, scan_children-some nodes s (node_at nodes p).children c)

-- The search depends on the children's segments only.
pub scan_children-agree :
    (nodes pool : Nodes) (s : Str) (is : List ℕ)
    → ((i : ℕ) → contains i is ≡ true → (node_at pool i).segment ≡ (node_at nodes i).segment)
    → scan_children pool s is ≡ scan_children nodes s is
unfolding scan_children
scan_children-agree nodes pool s [] h = refl
scan_children-agree nodes pool s (i ∷ is) h =
    ground (arith, h i, scan_children-agree nodes pool s is (λ j k. h j (ground arith)))

pub scan_children-snoc :
    (nodes : Nodes) (s : Str) (is : List ℕ) (c : ℕ)
    → scan_children nodes s (is ++ (c ∷ [])) ≡ (elim (scan_children nodes s is) [
      | some i ↦ some i
      | none ↦ if str_eq (node_at nodes c).segment s then some c else none
    ])
unfolding scan_children
scan_children-snoc nodes s [] c = ground arith
scan_children-snoc nodes s (i ∷ is) c = ground (arith, scan_children-snoc nodes s is c)

module _ (nodes : Nodes) (cur : ℕ) (s : Str) (here : cur < length nodes)
    (room : length nodes < max_nodes) where
  -- The parent as `add_child` leaves it.
  abbrev pub grown : TrieNode
  grown = record (node_at nodes cur) {
    children = (node_at nodes cur).children ++ (length nodes ∷ []);
  }

  pub add_child_lem : add_child nodes cur s ≡ set nodes cur grown ++ (new_node s ∷ [])
  unfolding add_child
  add_child_lem =
      rw (get_or-append_left nodes (new_node s ∷ []) cur (new_node []) here, index)
        (set-append_left nodes (new_node s ∷ []) cur grown here)
    where
      index : length nodes % 2 ^ 16 ≡ length nodes
      index = omega arith

  same_length : length (set nodes cur grown) ≡ length nodes
  same_length = length-set nodes cur grown

  pub length-add_child : length (add_child nodes cur s) ≡ length nodes + 1
  length-add_child =
      rw (add_child_lem, length-append (set nodes cur grown) (new_node s ∷ []), same_length)

  pub add_child-cur : node_at (add_child nodes cur s) cur ≡ grown
  add_child-cur = rw add_child_lem (
      get_or-append_left (set nodes cur grown) (new_node s ∷ []) cur (new_node [])
        (rw same_length here)
      ∙ get_or-set_self nodes cur grown (new_node []) here)

  pub add_child-new : node_at (add_child nodes cur s) (length nodes) ≡ new_node s
  add_child-new = rw add_child_lem (
      subst (λ k. get_or (set nodes cur grown ++ (new_node s ∷ [])) k (new_node []) ≡ new_node s)
        same_length (get_or-append_end (set nodes cur grown) (new_node s) (new_node [])))

  pub add_child-other :
      (i : ℕ) → i < length nodes → i ≢ cur → node_at (add_child nodes cur s) i ≡ node_at nodes i
  add_child-other i h ne = rw add_child_lem (
      get_or-append_left (set nodes cur grown) (new_node s ∷ []) i (new_node []) (rw same_length h)
      ∙ get_or-set_ne nodes cur i grown (new_node []) (λ e. ne (sym e)))

  -- No node but the parent changes its children, and none its segment or its routes.
  pub add_child-old :
      (i : ℕ)
      → i < length nodes
      → ((node_at (add_child nodes cur s) i).segment ≡ (node_at nodes i).segment)
        × ((node_at (add_child nodes cur s) i).route_idx_by_method
            ≡ (node_at nodes i).route_idx_by_method)
  add_child-old i h = elim (Bool-cases (i == cur)) [
    | inl e ↦ ground (arith, add_child-cur)
    | inr e ↦ ground (arith, add_child-other i h)
  ]
