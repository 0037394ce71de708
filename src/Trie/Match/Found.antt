-- ===== src/Trie/Match/Found.antt =====
-- `insert` and `match_key` together: a route that was inserted is found.
use route_lang.Common.{ℕ, ◌≡◌, ◌≢◌, ◌⊎◌, ◌∙◌, true, false, List, ap, sym, arith}
use route_lang.Method.{slot_invalid, slot_from_key, route_method_slot}
use route_lang.Tokens.{Str, tokenize_segments}
use route_lang.Trie.{Nodes, invalid_route, insert}
use route_lang.Trie.Reach.{route_at}
use route_lang.Trie.Insert.{IsTrie, Inserted, insert-Inserted}
use route_lang.Trie.Match.{Candidate, better, match_key}
use route_lang.Trie.Match.Walk.{matches}
use route_lang.Trie.Match.Rank.{described}
use route_lang.Trie.Match.Best.{Answered, match_key-Answered}

better-invalid : (c best : Candidate) → better c best ≡ false → best.route_idx ≢ invalid_route
unfolding better
better-invalid c best e f = absurd (ground arith)

-- A slot holds a route, so that a lookup by this slot, or by any if the slot is "any", finds one.
described-valid :
    (nodes : Nodes) (at slot : ℕ) (ls segs : List Str)
    → route_at nodes ls at ≢ invalid_route
    → (at ≡ slot) ⊎ (at ≡ 0)
    → (described nodes slot ls segs).route_idx ≢ invalid_route
unfolding described
described-valid nodes at slot ls segs h s e = ground arith

-- After an insert that returns true, `match_key` finds a route for every path that the inserted
-- path matches, under a key of the same slot, or of any slot if the insert was for any method.
pub match_key-insert :
    (nodes : Nodes) (path wanted : Str) (method route key cap : ℕ)
    → IsTrie nodes
    → (insert nodes path method route).1 ≡ true
    → route ≢ invalid_route
    → matches (tokenize_segments path).segs (tokenize_segments wanted).segs ≡ true
    → slot_from_key key ≢ slot_invalid
    → (route_method_slot method ≡ slot_from_key key) ⊎ (route_method_slot method ≡ 0)
    → (match_key (insert nodes path method route).0 wanted key cap).0 ≢ invalid_route
match_key-insert nodes path wanted method route key cap v ok r m k s e =
    better-invalid (described pool slot ls segs) a.0 (a.1.highest ls m valid)
      (sym (ap (λ t. t.0) a.2) ∙ e)
  where
    pool : Nodes
    pool = (insert nodes path method route).0

    slot : ℕ
    slot = slot_from_key key

    ls : List Str
    ls = (tokenize_segments path).segs

    segs : List Str
    segs = (tokenize_segments wanted).segs

    done : Inserted nodes ls (route_method_slot method) route pool
    done = insert-Inserted nodes path method route v ok

    a : Answered pool slot segs cap (match_key pool wanted key cap)
    a = match_key-Answered pool wanted key cap done.trie k

    valid : (described pool slot ls segs).route_idx ≢ invalid_route
    valid =
        described-valid pool (route_method_slot method) slot ls segs
          (λ q. ground (arith, done.written)) s
