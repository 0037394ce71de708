-- ===== src/Trie/Tests.antt =====
-- Tries built by `insert`, and the theorems about it at concrete inputs.
use route_lang.Common.{◌≡◌, ◌≢◌, refl, false, [], ◌∷◌, arith, ltb, take, length}
use route_lang.Method.{HttpMethod, route_method_key, route_method_slot, slot_from_key}
use route_lang.Method.Laws.{slot-route_method_key}
use route_lang.Tokens.{Str, max_path_segments, tokenize_segments}
use route_lang.Tokens.Segments.{
  segments, tokenize_segments-segments, render, names, tokenize_segments-render,
}
use route_lang.Trie.{Nodes, clear, insert, new_node, str_eq}
use route_lang.Trie.Reach.{reach, route_at}
use route_lang.Trie.Insert.{Inserted, insert-Inserted, clear-IsTrie}
use route_lang.Trie.Rollback.{insert-false}

abbrev api : Str
api = b'a' ∷ b'p' ∷ b'i' ∷ []

abbrev id : Str
id = b':' ∷ b'i' ∷ b'd' ∷ []

-- "/api//:id/"
abbrev api_id : Str
api_id = b'/' ∷ b'a' ∷ b'p' ∷ b'i' ∷ b'/' ∷ b'/' ∷ b':' ∷ b'i' ∷ b'd' ∷ b'/' ∷ []

tokenize-api_id : (tokenize_segments api_id).segs ≡ api ∷ id ∷ []
unfolding tokenize_segments
tokenize-api_id = refl

one_route : Nodes
one_route = (insert clear api_id b'G' 7).0

route_at-one_route : route_at one_route (api ∷ id ∷ []) 1 ≡ 7
unfolding one_route insert route_at reach clear route_method_slot tokenize_segments new_node str_eq
route_at-one_route = refl

insert-Inserted_example :
    Inserted clear
      (tokenize_segments api_id).segs
      (route_method_slot b'G')
      7
      (insert clear api_id b'G' 7).0
unfolding insert clear route_method_slot tokenize_segments new_node
insert-Inserted_example = insert-Inserted clear api_id b'G' 7 clear-IsTrie refl

-- 'X' is no method.
insert-false_example : (insert clear api_id b'X' 7).0 ≡ clear
unfolding insert clear route_method_slot
insert-false_example = insert-false clear api_id b'X' 7 clear-IsTrie refl

slot-route_method_key_example :
    (route_method_slot (route_method_key HttpMethod.patch) ≡ route_method_key HttpMethod.patch)
    × (slot_from_key (route_method_key HttpMethod.patch) ≡ route_method_key HttpMethod.patch)
    × (route_method_key HttpMethod.patch ≢ 0)
slot-route_method_key_example = slot-route_method_key HttpMethod.patch (λ e. cc)

tokenize_segments-render_example :
    tokenize_segments (render ((0, api) ∷ (1, id) ∷ []) 1)
    ≡ record { segs = names ((0, api) ∷ (1, id) ∷ []); overflow = false }
tokenize_segments-render_example =
    tokenize_segments-render ((0, api) ∷ (1, id) ∷ []) 1 (ground arith) (ground arith)

tokenize_segments-segments_example : tokenize_segments api_id ≡ record {
  segs = take max_path_segments (segments api_id);
  overflow = ltb max_path_segments (length (segments api_id));
}
tokenize_segments-segments_example = tokenize_segments-segments api_id
