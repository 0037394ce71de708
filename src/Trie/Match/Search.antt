-- ===== src/Trie/Match/Search.antt =====
-- The loop of `match_key` as a fold over the frames that it will pop, in their order.
use route_lang.Common.{
  ℕ, zero, suc, ◌≤◌, ◌<◌, ◌≡◌, refl, ap, sym, ◌∙◌, Option, none, some, List, [], ◌∷◌, ◌++◌,
  if◌then◌else◌, length, length-append, arith, inl, inr, Bool-cases,
}
use mathlib.Core.List.{append_assoc}
use route_lang.Tokens.{Str}
use route_lang.Trie.{max_nodes, Nodes, node_at, find_child, is_param_segment}
use route_lang.Trie.Match.{
  Frame, Candidate, param_frame, literal_frame, push_frame, push_params, push_literal, search,
  consider, candidate,
}

-- The frames that a round pushes, the last one pushed first.
abbrev pub param_frames : Nodes → Frame → Str → List Str → List ℕ → List Frame
param_frames nodes f s rest [] = []
param_frames nodes f s rest (child ∷ children) =
    if is_param_segment (node_at nodes child).segment
    then param_frame nodes f s rest child ∷ param_frames nodes f s rest children
    else param_frames nodes f s rest children

abbrev pub literal_frames : Nodes → Frame → List Str → Option ℕ → List Frame
literal_frames nodes f rest none = []
literal_frames nodes f rest (some child) =
    if is_param_segment (node_at nodes child).segment then [] else literal_frame f rest child ∷ []

abbrev pub expand : Nodes → Frame → Str → List Str → List Frame
expand nodes f s rest =
    literal_frames nodes f rest (find_child nodes f.node s)
    ++ param_frames nodes f s rest (node_at nodes f.node).children

abbrev pub flat_map : (Frame → List Frame) → List Frame → List Frame
flat_map g [] = []
flat_map g (f ∷ fs) = g f ++ flat_map g fs

-- A frame and all below it, in the order of the search.
abbrev pub collect : Nodes → List Str → Frame → List Frame
collect nodes [] f = f ∷ []
collect nodes (s ∷ rest) f = f ∷ flat_map (collect nodes rest) (expand nodes f s rest)

abbrev pub collect_all : Nodes → List Frame → List Frame
collect_all nodes = flat_map (λ f. collect nodes f.rest f)

-- `consider` on each frame in turn.
abbrev pub consider_all : Nodes → ℕ → Candidate → List Frame → Candidate
consider_all nodes slot best [] = best
consider_all nodes slot best (f ∷ fs) =
    consider_all nodes slot (consider best (candidate nodes slot f)) fs

flat_map-append :
    (g : Frame → List Frame) (xs ys : List Frame)
    → flat_map g (xs ++ ys) ≡ flat_map g xs ++ flat_map g ys
flat_map-append g [] ys = refl
flat_map-append g (x ∷ xs) ys =
    ap (λ t. g x ++ t) (flat_map-append g xs ys)
    ∙ sym (append_assoc (g x) (flat_map g xs) (flat_map g ys))

consider_all-append :
    (nodes : Nodes) (slot : ℕ) (best : Candidate) (xs ys : List Frame)
    → consider_all nodes slot best (xs ++ ys)
      ≡ consider_all nodes slot (consider_all nodes slot best xs) ys
consider_all-append nodes slot best [] ys = refl
consider_all-append nodes slot best (x ∷ xs) ys =
    consider_all-append nodes slot (consider best (candidate nodes slot x)) xs ys

-- A frame is one of those at and below it.
length-collect : (nodes : Nodes) (segs : List Str) (f : Frame) → 0 < length (collect nodes segs f)
length-collect nodes [] f = omega arith
length-collect nodes (s ∷ rest) f = omega arith

length-collect_all : (nodes : Nodes) (fs : List Frame) → length fs ≤ length (collect_all nodes fs)
length-collect_all nodes [] = omega arith
length-collect_all nodes (f ∷ fs) = omega (
  arith,
  length-collect nodes f.rest f,
  length-append (collect nodes f.rest f) (collect_all nodes fs),
  length-collect_all nodes fs,
)

push_params_lem :
    (nodes : Nodes) (f : Frame) (s : Str) (rest : List Str) (children : List ℕ) (stack : List Frame)
    → length (param_frames nodes f s rest children ++ stack) ≤ max_nodes
    → push_params nodes f s rest children stack ≡ param_frames nodes f s rest children ++ stack
unfolding push_params push_frame
push_params_lem nodes f s rest [] stack h = refl
push_params_lem nodes f s rest (c ∷ cs) stack h =
    ground (arith, push_params_lem nodes f s rest cs stack)

push_literal_lem :
    (nodes : Nodes) (f : Frame) (rest : List Str) (o : Option ℕ) (stack : List Frame)
    → length (literal_frames nodes f rest o ++ stack) ≤ max_nodes
    → push_literal nodes f rest o stack ≡ literal_frames nodes f rest o ++ stack
unfolding push_literal push_frame
push_literal_lem nodes f rest none stack h = refl
push_literal_lem nodes f rest (some c) stack h = ground arith

-- The pushes of a round, while the stack has room for them.
pushes_lem :
    (nodes : Nodes) (f : Frame) (s : Str) (rest : List Str) (stack : List Frame)
    → length (expand nodes f s rest ++ stack) ≤ max_nodes
    → push_literal nodes f rest
        (find_child nodes f.node s)
        (push_params nodes f s rest (node_at nodes f.node).children stack)
      ≡ expand nodes f s rest ++ stack
pushes_lem nodes f s rest stack h =
    rw (push_params_lem nodes f s rest cs stack room)
      (push_literal_lem nodes f rest o (ps ++ stack) (rw (sym assoc) h) ∙ sym assoc)
  where
    cs : List ℕ
    cs = (node_at nodes f.node).children

    o : Option ℕ
    o = find_child nodes f.node s

    ps : List Frame
    ps = param_frames nodes f s rest cs

    ls : List Frame
    ls = literal_frames nodes f rest o

    assoc : (ls ++ ps) ++ stack ≡ ls ++ (ps ++ stack)
    assoc = append_assoc ls ps stack

    room : length (ps ++ stack) ≤ max_nodes
    room = omega (arith, h, ap (length {A = Frame}) assoc, length-append ls (ps ++ stack))

param_frames-rest :
    (nodes : Nodes) (f : Frame) (s : Str) (rest : List Str) (cs : List ℕ)
    → collect_all nodes (param_frames nodes f s rest cs)
      ≡ flat_map (collect nodes rest) (param_frames nodes f s rest cs)
unfolding param_frame
param_frames-rest nodes f s rest [] = refl
param_frames-rest nodes f s rest (c ∷ cs) =
    elim (Bool-cases (is_param_segment (node_at nodes c).segment)) [
      | inl param ↦ rw param (
          ap (λ t. collect nodes rest (param_frame nodes f s rest c) ++ t)
            (param_frames-rest nodes f s rest cs))
      | inr literal ↦ rw literal (param_frames-rest nodes f s rest cs)
    ]

literal_frames-rest :
    (nodes : Nodes) (f : Frame) (rest : List Str) (o : Option ℕ)
    → collect_all nodes (literal_frames nodes f rest o)
      ≡ flat_map (collect nodes rest) (literal_frames nodes f rest o)
unfolding literal_frame
literal_frames-rest nodes f rest none = refl
literal_frames-rest nodes f rest (some c) =
    elim (Bool-cases (is_param_segment (node_at nodes c).segment)) [
      | inl param ↦ rw param refl
      | inr literal ↦ rw literal refl
    ]

-- The frames that are pushed have the segments behind `s` left.
expand-rest :
    (nodes : Nodes) (f : Frame) (s : Str) (rest : List Str)
    → collect_all nodes (expand nodes f s rest)
      ≡ flat_map (collect nodes rest) (expand nodes f s rest)
expand-rest nodes f s rest =
    rw
      (
        flat_map-append (λ g. collect nodes g.rest g) ls ps,
        flat_map-append (collect nodes rest) ls ps,
        literal_frames-rest nodes f rest (find_child nodes f.node s),
        param_frames-rest nodes f s rest (node_at nodes f.node).children,
      )
      refl
  where
    ls : List Frame
    ls = literal_frames nodes f rest (find_child nodes f.node s)

    ps : List Frame
    ps = param_frames nodes f s rest (node_at nodes f.node).children

-- With fuel for each frame and room for it on the stack, the loop considers every frame once.
pub search_lem :
    (fuel : ℕ) (nodes : Nodes) (slot : ℕ) (stack : List Frame) (best : Candidate)
    → length (collect_all nodes stack) ≤ fuel
    → length (collect_all nodes stack) ≤ max_nodes
    → search fuel nodes slot stack best ≡ consider_all nodes slot best (collect_all nodes stack)
unfolding search
search_lem zero nodes slot [] best h k = refl
search_lem zero nodes slot (f ∷ stack) best h k =
    absurd (omega (arith, length-collect_all nodes (f ∷ stack)))
search_lem (suc fuel) nodes slot [] best h k = refl
search_lem (suc fuel) nodes slot (f ∷ stack) best h k =
    split f.rest refl (λ next b. search_lem fuel nodes slot next b)
  where
    best' : Candidate
    best' = consider best (candidate nodes slot f)

    split :
        (segs : List Str)
        → f.rest ≡ segs
        → ((next : List Frame) (b : Candidate)
            → length (collect_all nodes next) ≤ fuel
            → length (collect_all nodes next) ≤ max_nodes
            → search fuel nodes slot next b ≡ consider_all nodes slot b (collect_all nodes next))
        → search (suc fuel) nodes slot (f ∷ stack) best
          ≡ consider_all nodes slot best (collect_all nodes (f ∷ stack))
    split [] e ih =
        let fits : length (f ∷ collect_all nodes stack) ≤ suc fuel = rw e at h in
        let held : length (f ∷ collect_all nodes stack) ≤ max_nodes = rw e at k in
        rw e (ih stack best' (omega arith) (omega arith))
    split (s ∷ rest) e ih =
        let next : List Frame = expand nodes f s rest ++ stack in
        let below : collect_all nodes next
            ≡ flat_map (collect nodes rest) (expand nodes f s rest) ++ collect_all nodes stack =
          rw
            (
              flat_map-append (λ g. collect nodes g.rest g) (expand nodes f s rest) stack,
              expand-rest nodes f s rest,
            )
            refl in
        let fits : suc (
              length
                (flat_map (collect nodes rest) (expand nodes f s rest) ++ collect_all nodes stack))
            ≤ suc fuel =
          rw e at h in
        let held : suc (
              length
                (flat_map (collect nodes rest) (expand nodes f s rest) ++ collect_all nodes stack))
            ≤ max_nodes =
          rw e at k in
        let size : length (collect_all nodes next)
            ≡ length
                (flat_map (collect nodes rest) (expand nodes f s rest) ++ collect_all nodes stack) =
          ap (length {A = Frame}) below in
        rw (e, pushes_lem nodes f s rest stack (omega (arith, length-collect_all nodes next)))
          (ih next best' (omega arith) (omega arith) ∙ ap (consider_all nodes slot best') below)
