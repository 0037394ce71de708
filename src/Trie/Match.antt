-- ===== src/Trie/Match.antt =====
-- `RouteTrie::match_key` and `match` of src/runtime/route_trie.cc. Segments are views into the
-- path there, and lists here; `seg_i` is kept as the segments from it on.
pub mod Search
pub mod Kids
pub mod Bound
pub mod Walk
pub mod Sound
pub mod Rank
pub mod Best
pub mod Found
pub mod Mask
pub mod Precedence
mod Tests
use route_lang.Common.{
  ℕ, zero, suc, ◌+◌, ◌-◌, ◌^◌, ◌%◌, ◌<◌, bit_or, Bool, true, false, not, ◌&&◌, ◌||◌, Option, none,
  some, List, [], ◌∷◌, ◌++◌, ltb, ◌==◌, if◌then◌else◌, length, get_or, take,
}
use route_lang.Method.{slot_invalid, slot_from_key, route_method_slot}
use route_lang.Tokens.{Str, tokenize_segments}
use route_lang.Trie.{
  TrieNode, invalid_route, max_nodes, Nodes, node_at, find_child, is_param_segment,
}

-- `RouteParam` of include/rut/runtime/route_params.h.
pub record RouteParam : Type 0 where
  pub name : Str
  pub value : Str

abbrev pub max_route_params : ℕ
max_route_params = 16

pub record Candidate : Type 0 where
  pub route_idx : ℕ
  pub depth : ℕ
  pub static_segments : ℕ
  pub static_mask : ℕ
  pub method_specific : Bool
  pub params : List RouteParam

pub record Frame : Type 0 where
  pub node : ℕ
  pub rest : List Str
  pub depth : ℕ
  pub static_segments : ℕ
  pub static_mask : ℕ
  pub params : List RouteParam

-- `pick_terminal`: the route of a node and whether it is specific to the method.
pub pick_terminal : TrieNode → ℕ → ℕ × Bool
pick_terminal n slot =
    if not (slot == 0) && not (get_or n.route_idx_by_method slot invalid_route == invalid_route)
    then (get_or n.route_idx_by_method slot invalid_route, true)
    else (get_or n.route_idx_by_method 0 invalid_route, false)

-- The condition under which `consider` replaces `best`.
pub better : Candidate → Candidate → Bool
better c best =
    best.route_idx == invalid_route
    || (ltb best.depth c.depth
        || ((c.depth == best.depth && ltb best.static_segments c.static_segments)
            || ((c.depth == best.depth
                  && (c.static_segments == best.static_segments
                      && ltb best.static_mask c.static_mask))
                || (c.depth == best.depth
                    && (c.static_segments == best.static_segments
                        && (c.static_mask == best.static_mask
                            && (c.method_specific && not best.method_specific)))))))

pub consider : Candidate → Candidate → Candidate
unfolding better
consider best c = if c.route_idx == invalid_route then best else if better c best then c else best

-- The terminal of a frame, with the values of the frame that `consider` copies.
pub candidate : Nodes → ℕ → Frame → Candidate
unfolding pick_terminal
candidate nodes slot f = record {
  route_idx = (pick_terminal (node_at nodes f.node) slot).0;
  depth = f.depth;
  static_segments = f.static_segments;
  static_mask = f.static_mask;
  method_specific = (pick_terminal (node_at nodes f.node) slot).1;
  params = f.params;
}

-- `{name.ptr + 1, name.len - 1}`.
pub drop_colon : Str → Str
drop_colon [] = []
drop_colon (c ∷ s) = s

-- A child whose segment begins with ':' takes any segment `s` of the request.
pub param_frame : Nodes → Frame → Str → List Str → ℕ → Frame
param_frame nodes f s rest child =
    let param : RouteParam = record {
      name = drop_colon (node_at nodes child).segment;
      value = s;
    } in
    record {
      node = child;
      rest = rest;
      depth = f.depth + 1;
      static_segments = f.static_segments;
      static_mask = f.static_mask;
      params =
          if ltb (length f.params) max_route_params then f.params ++ (param ∷ []) else f.params;
    }

pub literal_frame : Frame → List Str → ℕ → Frame
literal_frame f rest child = record {
  node = child;
  rest = rest;
  depth = f.depth + 1;
  static_segments = f.static_segments + 1;
  static_mask =
      if ltb (f.depth + 1) 64
      then bit_or f.static_mask (2 ^ (63 - (f.depth + 1)))
      else f.static_mask;
  params = f.params;
}

-- `stack.push`, whose result is ignored: a full stack drops the frame. The last frame comes first.
pub push_frame : List Frame → Frame → List Frame
push_frame stack f = if ltb (length stack) max_nodes then f ∷ stack else stack

-- The loop over the children from the last to the first, which pushes those with a parameter.
pub push_params : Nodes → Frame → Str → List Str → List ℕ → List Frame → List Frame
unfolding param_frame push_frame
push_params nodes f s rest [] stack = stack
push_params nodes f s rest (child ∷ children) stack =
    let later : List Frame = push_params nodes f s rest children stack in
    if is_param_segment (node_at nodes child).segment
    then push_frame later (param_frame nodes f s rest child)
    else later

pub push_literal : Nodes → Frame → List Str → Option ℕ → List Frame → List Frame
unfolding literal_frame push_frame
push_literal nodes f rest none stack = stack
push_literal nodes f rest (some child) stack =
    if is_param_segment (node_at nodes child).segment
    then stack
    else push_frame stack (literal_frame f rest child)

-- The `while` loop. A frame is popped, considered, and if segments are left its children pushed.
pub search : ℕ → Nodes → ℕ → List Frame → Candidate → Candidate
unfolding candidate consider push_params push_literal
search zero nodes slot stack best = best
search (suc fuel) nodes slot [] best = best
search (suc fuel) nodes slot (f ∷ stack) best =
    let best' : Candidate = consider best (candidate nodes slot f) in
    elim f.rest [
      | [] ↦ search fuel nodes slot stack best'
      | s ∷ rest ↦
          search fuel nodes slot
            (push_literal nodes f rest (find_child nodes f.node s)
              (push_params nodes f s rest (node_at nodes f.node).children stack))
            best'
    ]

-- `Candidate best{}` and `Frame{}`.
abbrev pub no_candidate : Candidate
no_candidate = record {
  route_idx = invalid_route;
  depth = 0;
  static_segments = 0;
  static_mask = 0;
  method_specific = false;
  params = [];
}

abbrev pub root_frame : List Str → Frame
root_frame segs = record {
  node = 0;
  rest = segs;
  depth = 0;
  static_segments = 0;
  static_mask = 0;
  params = [];
}

-- Each round of the loop pops a frame of a node of its own, so `max_nodes` rounds are enough.
pub best_candidate : Nodes → ℕ → List Str → Candidate
unfolding search
best_candidate nodes slot segs = search max_nodes nodes slot (root_frame segs ∷ []) no_candidate

-- `match_key` with `out_param_cap`: the route, and the parameters copied out.
unfoldable pub match_key : Nodes → Str → ℕ → ℕ → ℕ × List RouteParam
unfolding best_candidate
match_key nodes path key cap =
    let slot : ℕ = slot_from_key key in
    let best : Candidate = best_candidate nodes slot (tokenize_segments path).segs in
    if slot == slot_invalid then (invalid_route, []) else (best.route_idx, take cap best.params)

-- `match`: the slot of the method is narrowed to a u8 and passed as the key.
pub match_method : Nodes → Str → ℕ → ℕ
unfolding match_key
match_method nodes path method = (match_key nodes path (route_method_slot method % 2 ^ 8) 0).0
