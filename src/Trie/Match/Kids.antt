-- ===== src/Trie/Match/Kids.antt =====
-- The nodes of the frames that the search pops, and lists of distinct numbers.
use route_lang.Common.{
  ℕ, suc, ◌≡◌, refl, ap, ◌∙◌, true, false, Option, none, some, List, [], ◌∷◌, ◌++◌, if◌then◌else◌,
  length, length-append, contains, contains-append, nodup, arith, inl, inr, Bool-cases,
  Option-cases,
}
use route_lang.Tokens.{Str}
use route_lang.Trie.{Nodes, node_at, find_child, is_param_segment}
use route_lang.Trie.Nodes.{find_child-some}
use route_lang.Trie.Match.{Frame, param_frame, literal_frame}
use route_lang.Trie.Match.Search.{param_frames, literal_frames, expand, flat_map, collect}

-- The nodes of the frames.
abbrev pub param_kids : Nodes → List ℕ → List ℕ
param_kids nodes [] = []
param_kids nodes (c ∷ cs) =
    if is_param_segment (node_at nodes c).segment
    then c ∷ param_kids nodes cs
    else param_kids nodes cs

abbrev pub literal_kid : Nodes → Option ℕ → List ℕ
literal_kid nodes none = []
literal_kid nodes (some c) = if is_param_segment (node_at nodes c).segment then [] else c ∷ []

abbrev pub kids : Nodes → ℕ → Str → List ℕ
kids nodes i s =
    literal_kid nodes (find_child nodes i s) ++ param_kids nodes (node_at nodes i).children

abbrev pub gather : (ℕ → List ℕ) → List ℕ → List ℕ
gather g [] = []
gather g (c ∷ cs) = g c ++ gather g cs

abbrev pub below : Nodes → List Str → ℕ → List ℕ
below nodes [] i = i ∷ []
below nodes (s ∷ rest) i = i ∷ gather (below nodes rest) (kids nodes i s)

abbrev nodes_of : List Frame → List ℕ
nodes_of [] = []
nodes_of (f ∷ fs) = f.node ∷ nodes_of fs

nodes_of-append : (xs ys : List Frame) → nodes_of (xs ++ ys) ≡ nodes_of xs ++ nodes_of ys
nodes_of-append [] ys = refl
nodes_of-append (x ∷ xs) ys = ap (◌∷◌ x.node) (nodes_of-append xs ys)

nodes_of-params :
    (nodes : Nodes) (f : Frame) (s : Str) (rest : List Str) (cs : List ℕ)
    → nodes_of (param_frames nodes f s rest cs) ≡ param_kids nodes cs
unfolding param_frame
nodes_of-params nodes f s rest [] = refl
nodes_of-params nodes f s rest (c ∷ cs) = ground (arith, nodes_of-params nodes f s rest cs)

nodes_of-literal :
    (nodes : Nodes) (f : Frame) (rest : List Str) (o : Option ℕ)
    → nodes_of (literal_frames nodes f rest o) ≡ literal_kid nodes o
unfolding literal_frame
nodes_of-literal nodes f rest none = refl
nodes_of-literal nodes f rest (some c) = ground arith

length-flat_map :
    (nodes : Nodes) (rest : List Str) (fs : List Frame)
    → ((f : Frame) → length (collect nodes rest f) ≡ length (below nodes rest f.node))
    → length (flat_map (collect nodes rest) fs) ≡ length (gather (below nodes rest) (nodes_of fs))
length-flat_map nodes rest [] h = refl
length-flat_map nodes rest (f ∷ fs) h = omega (
  arith,
  h f,
  length-append (collect nodes rest f) (flat_map (collect nodes rest) fs),
  length-append (below nodes rest f.node) (gather (below nodes rest) (nodes_of fs)),
  length-flat_map nodes rest fs h,
)

pub length-collect :
    (nodes : Nodes) (segs : List Str) (f : Frame)
    → length (collect nodes segs f) ≡ length (below nodes segs f.node)
length-collect nodes [] f = refl
length-collect nodes (s ∷ rest) f = ap suc (
    length-flat_map nodes rest (expand nodes f s rest) (length-collect nodes rest)
    ∙ ap (λ t. length (gather (below nodes rest) t)) same)
  where
    same : nodes_of (expand nodes f s rest) ≡ kids nodes f.node s
    same =
        rw
          (
            nodes_of-append (literal_frames nodes f rest (find_child nodes f.node s))
                (param_frames nodes f s rest (node_at nodes f.node).children),
            nodes_of-literal nodes f rest (find_child nodes f.node s),
            nodes_of-params nodes f s rest (node_at nodes f.node).children,
          )
          refl

param_kids-contains :
    (nodes : Nodes) (c : ℕ) (cs : List ℕ)
    → contains c (param_kids nodes cs) ≡ true
    → (contains c cs ≡ true) × (is_param_segment (node_at nodes c).segment ≡ true)
param_kids-contains nodes c [] h = absurd (ground arith)
param_kids-contains nodes c (d ∷ cs) h = ground (arith, param_kids-contains nodes c cs)

nodup-param_kids :
    (nodes : Nodes) (cs : List ℕ) → nodup cs ≡ true → nodup (param_kids nodes cs) ≡ true
nodup-param_kids nodes [] h = refl
nodup-param_kids nodes (c ∷ cs) h =
    ground (arith, nodup-param_kids nodes cs, param_kids-contains nodes c cs)

pub kids-contains :
    (nodes : Nodes) (i : ℕ) (s : Str) (c : ℕ)
    → contains c (kids nodes i s) ≡ true
    → contains c (node_at nodes i).children ≡ true
kids-contains nodes i s c h = elim (Option-cases (find_child nodes i s)) [
  | inl missing ↦ ground (arith, missing, param_kids-contains nodes c (node_at nodes i).children)
  | inr (d, found) ↦ ground (
    arith,
    found,
    find_child-some nodes i s d found,
    contains-append c (literal_kid nodes (some d)) (param_kids nodes (node_at nodes i).children),
    param_kids-contains nodes c (node_at nodes i).children,
  )
]

pub nodup-kids :
    (nodes : Nodes) (i : ℕ) (s : Str)
    → nodup (node_at nodes i).children ≡ true
    → nodup (kids nodes i s) ≡ true
nodup-kids nodes i s h = elim (Option-cases (find_child nodes i s)) [
  | inl missing ↦ ground (arith, missing, nodup-param_kids nodes (node_at nodes i).children)
  | inr (d, found) ↦ ground (
    arith,
    found,
    nodup-param_kids nodes (node_at nodes i).children,
    param_kids-contains nodes d (node_at nodes i).children,
  )
]

pub nodup-append :
    (xs ys : List ℕ)
    → nodup xs ≡ true
    → nodup ys ≡ true
    → ((a : ℕ) → contains a xs ≡ true → contains a ys ≡ false)
    → nodup (xs ++ ys) ≡ true
nodup-append [] ys h k d = k
nodup-append (x ∷ xs) ys h k d = ground (
  arith,
  contains-append x xs ys,
  d x,
  nodup-append xs ys (ground arith) k (λ a m. d a (ground arith)),
)

pub gather-contains :
    (g : ℕ → List ℕ) (a : ℕ) (cs : List ℕ)
    → contains a (gather g cs) ≡ true
    → (c : ℕ) × (contains c cs ≡ true) × (contains a (g c) ≡ true)
gather-contains g a [] h = absurd (ground arith)
gather-contains g a (c ∷ cs) h = elim (Bool-cases (contains a (g c))) [
  | inl here ↦ (c, ground arith, here)
  | inr later ↦
      let r : (d : ℕ) × (contains d cs ≡ true) × (contains a (g d) ≡ true) =
        gather-contains g a cs (ground (arith, contains-append a (g c) (gather g cs))) in
      (r.0, ground (arith, r.1), r.2)
]

pub append-cancel : (zs xs ys : List Str) (s t : Str) → zs ++ (s ∷ xs) ≡ zs ++ (t ∷ ys) → s ≡ t
append-cancel [] xs ys s t e = cc
append-cancel (z ∷ zs) xs ys s t e = append-cancel zs xs ys s t cc
