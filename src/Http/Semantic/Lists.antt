-- ===== src/Http/Semantic/Lists.antt =====
-- What the loops over Connection and Transfer-Encoding compute: a test on the list's tokens.
use route_lang.Common.{
  ℕ, zero, suc, ◌≤◌, ◌<◌, ◌≡◌, ◌||◌, refl, ap, sym, Bool, true, false, List, [], ◌∷◌, ◌++◌, length,
  arith, inl, inr, Bool-cases, if◌then◌else◌, codes,
}
use mathlib.Core.List.{append_assoc, append-nil}
use route_lang.Tokens.{Str}
use route_lang.Http.Semantic.{
  is_separator, skip_separators, take_token, is_text, Keep, connection_loop,
  match_connection_response, match_connection, chunked_loop, names_chunked,
}

-- The tokens of a value: the runs of bytes between separators, where `run` is the last one so far.
unfoldable pub tokens_from : Str → Str → List Str
tokens_from [] [] = []
tokens_from (t ∷ run) [] = (t ∷ run) ∷ []
tokens_from [] (c ∷ v) = if is_separator c then tokens_from [] v else tokens_from (c ∷ []) v
tokens_from (t ∷ run) (c ∷ v) =
    if is_separator c then (t ∷ run) ∷ tokens_from [] v else tokens_from (t ∷ (run ++ (c ∷ []))) v

unfoldable pub tokens : Str → List Str
unfolding tokens_from
tokens v = tokens_from [] v

abbrev pub names : Str → List Str → Bool
names text [] = false
names text (t ∷ ts) = is_text t text || names text ts

tokens-skip : (v : Str) → tokens_from [] v ≡ tokens_from [] (skip_separators v)
unfolding tokens_from skip_separators
tokens-skip [] = refl
tokens-skip (c ∷ v) = ground (arith, tokens-skip v)

tokens-run :
    (t : ℕ) (run v : Str)
    → tokens_from (t ∷ run) v ≡ (t ∷ (run ++ (take_token v).0)) ∷ tokens_from [] (take_token v).1
unfolding tokens_from take_token
tokens-run t run [] = ap (λ x. (t ∷ x) ∷ []) (sym (append-nil run))
tokens-run t run (c ∷ v) = elim (Bool-cases (is_separator c)) [
  | inl ends ↦ ground (arith, ends, append-nil run)
  | inr goes ↦
      ground
        (arith, goes, tokens-run t (run ++ (c ∷ [])) v, append_assoc run (c ∷ []) (take_token v).0)
]

skip_separators-first :
    (v : Str) (c : ℕ) (rest : Str) → skip_separators v ≡ c ∷ rest → is_separator c ≡ false
unfolding skip_separators
skip_separators-first [] c rest e = absurd (ground arith)
skip_separators-first (d ∷ v) c rest e = ground (arith, skip_separators-first v c rest)

skip_separators-length : (v : Str) → length (skip_separators v) ≤ length v
unfolding skip_separators
skip_separators-length [] = omega arith
skip_separators-length (c ∷ v) = ground (arith, skip_separators-length v)

take_token-length : (v : Str) → length (take_token v).1 ≤ length v
unfolding take_token
take_token-length [] = omega arith
take_token-length (c ∷ v) = ground (arith, take_token-length v)

-- The tokens of a value whose separators in front are skipped.
next_token :
    (v : Str) (c : ℕ) (rest : Str)
    → skip_separators v ≡ c ∷ rest
    → (tokens_from [] v ≡ (take_token (c ∷ rest)).0 ∷ tokens_from [] (take_token (c ∷ rest)).1)
      × (length (take_token (c ∷ rest)).1 < length v)
unfolding tokens_from take_token
next_token v c rest e =
    let goes : is_separator c ≡ false = skip_separators-first v c rest e in
    (
      ground (arith, tokens-skip v, e, goes, tokens-run c [] rest),
      ground (arith, goes, ap (length {A = ℕ}) e, skip_separators-length v, take_token-length rest),
    )

no_token : (v : Str) → skip_separators v ≡ [] → tokens_from [] v ≡ []
unfolding tokens_from
no_token v e = ground (arith, tokens-skip v, e)

-- `close` wins, wherever it stands; else `keep-alive` sets the flag.
abbrev pub kept : List Str → Keep → Keep
kept ts k =
    if names (codes "close") ts
    then (false, true)
    else if names (codes "keep-alive") ts
    then (true, k.1)
    else k

chunked_loop-names :
    (fuel : ℕ) (v : Str)
    → length v ≤ fuel
    → chunked_loop fuel v ≡ names (codes "chunked") (tokens_from [] v)
unfolding chunked_loop
chunked_loop-names zero [] h = unfold tokens_from in refl
chunked_loop-names zero (c ∷ v) h = absurd (omega arith)
chunked_loop-names (suc fuel) v h = split (skip_separators v) refl (λ w. chunked_loop-names fuel w)
  where
    split :
        (s : Str)
        → skip_separators v ≡ s
        → ((w : Str)
            → length w ≤ fuel
            → chunked_loop fuel w ≡ names (codes "chunked") (tokens_from [] w))
        → chunked_loop (suc fuel) v ≡ names (codes "chunked") (tokens_from [] v)
    split [] e ih = ground (arith, e, no_token v e)
    split (c ∷ rest) e ih =
        let n : (tokens_from [] v
              ≡ (take_token (c ∷ rest)).0 ∷ tokens_from [] (take_token (c ∷ rest)).1)
            × (length (take_token (c ∷ rest)).1 < length v) =
          next_token v c rest e in
        ground (arith, e, n, ih (take_token (c ∷ rest)).1)

connection_loop-kept :
    (fuel : ℕ) (v : Str) (k : Keep)
    → length v ≤ fuel
    → connection_loop fuel v k ≡ kept (tokens_from [] v) k
unfolding connection_loop
connection_loop-kept zero [] k h = unfold tokens_from in refl
connection_loop-kept zero (c ∷ v) k h = absurd (omega arith)
connection_loop-kept (suc fuel) v k h =
    split (skip_separators v) refl (λ w j. connection_loop-kept fuel w j)
  where
    split :
        (s : Str)
        → skip_separators v ≡ s
        → ((w : Str) (j : Keep)
            → length w ≤ fuel
            → connection_loop fuel w j ≡ kept (tokens_from [] w) j)
        → connection_loop (suc fuel) v k ≡ kept (tokens_from [] v) k
    split [] e ih = ground (arith, e, no_token v e)
    split (c ∷ rest) e ih =
        let n : (tokens_from [] v
              ≡ (take_token (c ∷ rest)).0 ∷ tokens_from [] (take_token (c ∷ rest)).1)
            × (length (take_token (c ∷ rest)).1 < length v) =
          next_token v c rest e in
        ground (
          arith,
          e,
          n,
          ih (take_token (c ∷ rest)).1
              (if is_text (take_token (c ∷ rest)).0 (codes "keep-alive") then (true, k.1) else k),
        )

-- `match_connection_response` sets the flags by the tokens of the value: with `close` among them
-- they are false and true; else `keep_alive` is set if `keep-alive` is among them.
pub match_connection_response-kept :
    (v : Str) (k : Keep) → match_connection_response v k ≡ kept (tokens v) k
unfolding match_connection_response tokens
match_connection_response-kept v k = connection_loop-kept (length v) v k (omega arith)

pub match_connection-kept :
    (v : Str) (keep_alive : Bool)
    → match_connection v keep_alive ≡ (kept (tokens v) (keep_alive, false)).0
unfolding match_connection tokens
match_connection-kept v keep_alive =
    ap (λ (k : Keep). k.0) (connection_loop-kept (length v) v (keep_alive, false) (omega arith))

-- Transfer-Encoding sets `chunked` exactly if `chunked` is among the tokens of the value.
pub names_chunked-names : (v : Str) → names_chunked v ≡ names (codes "chunked") (tokens v)
unfolding names_chunked tokens
names_chunked-names v = chunked_loop-names (length v) v (omega arith)
