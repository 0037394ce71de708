-- ===== src/Trie/Match/Precedence.antt =====
-- The route that `match_key` answers with, by a precedence on paths of labels that knows neither
-- masks nor the tests of `consider`.
use route_lang.Common.{
  ℕ, ◌≤◌, ◌==◌, ◌≡◌, ◌≢◌, ◌⊎◌, refl, ap, sym, subst, ◌∙◌, Bool, true, false, not, ◌&&◌, ◌||◌, List,
  [], ◌∷◌, if◌then◌else◌, length, length-take, take, ltb, arith, inl, inr, Bool-cases,
}
use route_lang.Method.{slot_invalid, slot_from_key}
use route_lang.Tokens.{Str, Tokens, max_path_segments, tokenize_segments}
use route_lang.Tokens.Segments.{segments, tokenize_segments-segments}
use route_lang.Trie.{Nodes, invalid_route}
use route_lang.Trie.Reach.{route_at}
use route_lang.Trie.Insert.{IsTrie}
use route_lang.Trie.Match.{Candidate, RouteParam, max_route_params, better, match_key}
use route_lang.Trie.Match.Walk.{matches}
use route_lang.Trie.Match.Rank.{literals, literal_mask, captures, has_own, described}
use route_lang.Trie.Match.Mask.{literal_first, mask-order}
use route_lang.Trie.Match.Best.{IsBest, Answered, match_key-Answered}

-- The route that a path of labels holds for a slot, its own or that of any method.
abbrev pub route_for : Nodes → ℕ → List Str → ℕ
route_for nodes slot ls = route_at nodes ls (if has_own nodes slot ls then slot else 0)

abbrev pub has_route : Nodes → ℕ → List Str → Bool
has_route nodes slot ls = not (route_for nodes slot ls == invalid_route)

-- The longer path, then the one with more literals, then the one that has a literal where the two
-- first differ in kind, then the one whose route is for the method.
unfoldable pub precedes : Nodes → ℕ → List Str → List Str → Bool
unfolding literal_first
precedes nodes slot ls ms =
    ltb (length ms) (length ls)
    || (length ls == length ms
        && (ltb (literals ms) (literals ls)
            || (literals ls == literals ms
                && (literal_first ls ms
                    || (not (literal_first ms ls)
                        && (has_own nodes slot ls && not (has_own nodes slot ms)))))))

better-precedes :
    (nodes : Nodes) (slot : ℕ) (segs ls ms : List Str)
    → length ls ≤ 64
    → has_route nodes slot ms ≡ true
    → better (described nodes slot ls segs) (described nodes slot ms segs)
      ≡ precedes nodes slot ls ms
unfolding better described precedes
better-precedes nodes slot segs ls ms few h =
    elim (Bool-cases (length ls == length ms && literals ls == literals ms)) [
      | inl same ↦
          let a : ltb (literal_mask ms 1 0) (literal_mask ls 1 0) ≡ literal_first ls ms =
            mask-order ls ms few (ground arith) (ground arith) in
          let b : ltb (literal_mask ls 1 0) (literal_mask ms 1 0) ≡ literal_first ms ls =
            mask-order ms ls (ground arith) (ground arith) (ground arith) in
          ground (arith, a, b)
      | inr other ↦ ground arith
    ]

matches-length : (ls segs : List Str) → matches ls segs ≡ true → length ls ≤ length segs
unfolding matches
matches-length [] segs h = omega arith
matches-length (l ∷ ls) [] h = absurd (ground arith)
matches-length (l ∷ ls) (s ∷ segs) h = ground (arith, matches-length ls segs (ground arith))

-- Either no path that matches has a route, or the answer is that of one which none precedes.
abbrev pub Preferred : Nodes → ℕ → List Str → ℕ → ℕ × List RouteParam → Type 0
Preferred nodes slot segs cap answer =
    ((answer.0 ≡ invalid_route)
      × ((ls : List Str) → matches ls segs ≡ true → has_route nodes slot ls ≡ false))
    ⊎ ((ls : List Str) × (matches ls segs ≡ true)
        × (has_route nodes slot ls ≡ true)
        × (answer ≡ (route_for nodes slot ls, take cap (take max_route_params (captures ls segs))))
        × ((ms : List Str)
            → matches ms segs ≡ true
            → has_route nodes slot ms ≡ true
            → precedes nodes slot ms ls ≡ false))

module _ (nodes : Nodes) (slot : ℕ) (segs : List Str) (few : length segs ≤ 64) (cap : ℕ) where
  none-Preferred :
      (best : Candidate)
      → IsBest nodes slot segs best
      → best.route_idx ≡ invalid_route
      → Preferred nodes slot segs cap (best.route_idx, take cap best.params)
  unfolding better described
  none-Preferred best b e = inl (
    e,
    λ ls m. elim (Bool-cases (has_route nodes slot ls)) [
      | inl found ↦ absurd (ground (arith, e, b.highest ls m (ground (arith, found))))
      | inr missing ↦ missing
    ],
  )

  some-Preferred :
      (ls : List Str)
      → matches ls segs ≡ true
      → has_route nodes slot ls ≡ true
      → IsBest nodes slot segs (described nodes slot ls segs)
      → Preferred nodes slot segs cap
          (route_for nodes slot ls, take cap (take max_route_params (captures ls segs)))
  unfolding described
  some-Preferred ls m h b = inr (
    ls,
    m,
    h,
    refl,
    λ ms n k.
        sym (better-precedes nodes slot segs ms ls (omega (arith, matches-length ms segs n)) h)
        ∙ b.highest ms n (ground (arith, k)),
  )

  IsBest-Preferred :
      (best : Candidate)
      → IsBest nodes slot segs best
      → Preferred nodes slot segs cap (best.route_idx, take cap best.params)
  IsBest-Preferred best b = elim b.source [
    | inl none ↦ none-Preferred best b (ap (λ (c : Candidate). c.route_idx) none)
    | inr (ls, m, e) ↦ elim (Bool-cases (has_route nodes slot ls)) [
      | inl found ↦
          subst (λ (c : Candidate). Preferred nodes slot segs cap (c.route_idx, take cap c.params))
            (sym e)
            (unfold described in some-Preferred ls m found (subst (IsBest nodes slot segs) e b))
      | inr missing ↦
          none-Preferred best b
            (ap (λ (c : Candidate). c.route_idx) e ∙ (unfold described in ground (arith, missing)))
    ]
  ]

-- On a trie and with a key that has a slot, `match_key` returns no route only where no path of labels
-- that takes the first segments of the request has one for the slot. Else it returns the route and
-- the first parameters of such a path, and no other such path has precedence: by its length, the
-- number of its literals, the place of the first literal against a parameter, and the method.
pub match_key-Preferred :
    (nodes : Nodes) (path : Str) (key cap : ℕ)
    → IsTrie nodes
    → slot_from_key key ≢ slot_invalid
    → Preferred nodes
        (slot_from_key key)
        (tokenize_segments path).segs
        cap
        (match_key nodes path key cap)
match_key-Preferred nodes path key cap v h =
    let a : Answered nodes (slot_from_key key) (tokenize_segments path).segs cap
        (match_key nodes path key cap) =
      match_key-Answered nodes path key cap v h in
    let few : length (tokenize_segments path).segs ≤ max_path_segments = omega (
      arith,
      ap (λ (t : Tokens). length t.segs) (tokenize_segments-segments path),
      length-take max_path_segments (segments path),
    ) in
    subst (Preferred nodes (slot_from_key key) (tokenize_segments path).segs cap) (sym a.2)
      (IsBest-Preferred nodes (slot_from_key key) (tokenize_segments path).segs few cap a.0 a.1)
