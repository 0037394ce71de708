-- ===== src/Trie/Match/Tests.antt =====
-- `match_key` and `match` on a small trie, and the theorems about them at concrete inputs.
use route_lang.Common.{◌≡◌, ◌≢◌, refl, inl, [], ◌∷◌, arith}
use route_lang.Method.{route_method_slot, slot_from_key}
use route_lang.Tokens.{Str, tokenize_segments}
use route_lang.Trie.{Nodes, clear, insert, new_node, str_eq, is_param_segment}
use route_lang.Trie.Insert.{IsTrie, insert-Inserted, clear-IsTrie}
use route_lang.Trie.Match.{match_key, match_method, drop_colon}
use route_lang.Trie.Match.Best.{Answered, match_key-Answered}
use route_lang.Trie.Match.Precedence.{Preferred, match_key-Preferred}
use route_lang.Trie.Match.Found.{match_key-insert}
use route_lang.Trie.Match.Walk.{matches}

-- "/api/:id"
abbrev by_id : Str
by_id = b'/' ∷ b'a' ∷ b'p' ∷ b'i' ∷ b'/' ∷ b':' ∷ b'i' ∷ b'd' ∷ []

-- "/api/me"
abbrev me : Str
me = b'/' ∷ b'a' ∷ b'p' ∷ b'i' ∷ b'/' ∷ b'm' ∷ b'e' ∷ []

-- "/api/7/x"
abbrev seven_x : Str
seven_x = b'/' ∷ b'a' ∷ b'p' ∷ b'i' ∷ b'/' ∷ b'7' ∷ b'/' ∷ b'x' ∷ []

abbrev one_route : Nodes
one_route = (insert clear by_id b'G' 7).0

abbrev two_routes : Nodes
two_routes = (insert one_route me b'G' 8).0

match_key-parameter :
    match_key two_routes seven_x 1 16
    ≡ (7, record { name = b'i' ∷ b'd' ∷ []; value = b'7' ∷ [] } ∷ [])
unfolding insert clear route_method_slot tokenize_segments new_node match_key slot_from_key str_eq
    drop_colon is_param_segment
match_key-parameter = refl

match_method-literal : match_method two_routes me b'G' ≡ 8
unfolding insert clear route_method_slot tokenize_segments new_node match_method slot_from_key
    str_eq is_param_segment
match_method-literal = refl

one_route-IsTrie : IsTrie one_route
unfolding insert clear route_method_slot tokenize_segments new_node
one_route-IsTrie = (insert-Inserted clear by_id b'G' 7 clear-IsTrie refl).trie

two_routes-IsTrie : IsTrie two_routes
unfolding insert clear route_method_slot tokenize_segments new_node str_eq
two_routes-IsTrie = (insert-Inserted one_route me b'G' 8 one_route-IsTrie refl).trie

match_key-Answered_example :
    Answered two_routes
      (slot_from_key 1)
      (tokenize_segments seven_x).segs
      16
      (match_key two_routes seven_x 1 16)
unfolding slot_from_key
match_key-Answered_example =
    match_key-Answered two_routes seven_x 1 16 two_routes-IsTrie (λ e. omega arith)

-- "/api/me" matches both routes, and the literal one has precedence.
match_key-Preferred_example :
    Preferred two_routes
      (slot_from_key 1)
      (tokenize_segments me).segs
      16
      (match_key two_routes me 1 16)
unfolding slot_from_key
match_key-Preferred_example =
    match_key-Preferred two_routes me 1 16 two_routes-IsTrie (λ e. omega arith)

match_key-insert_example : (match_key (insert one_route me b'G' 8).0 me 1 16).0 ≢ 0xffff
unfolding insert clear route_method_slot tokenize_segments new_node slot_from_key matches str_eq
    is_param_segment
match_key-insert_example =
    match_key-insert one_route me me b'G' 8 1 16 one_route-IsTrie refl (λ e. omega arith) refl
      (λ e. omega arith) (inl refl)
