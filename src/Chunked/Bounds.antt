-- ===== src/Chunked/Bounds.antt =====
-- What one call of `feed` may touch and how far it moves.
use route_lang.Common.{
  ℕ, suc, ◌+◌, ◌≤◌, ◌<◌, ◌==◌, ◌&&◌, ◌≡◌, refl, true, false, Bool, Option, some, none, List, [],
  ◌∷◌, arith, ltb, length,
}
use route_lang.Chunked.{
  State, complete, ChunkedParser, ChunkStatus, need_more, data_ready, done, error, Round, next,
  fail, finish, finished, bulk, round, Feed, feed_from, feed,
}
use route_lang.Chunked.Invariant.{IsValid, round-IsValid, round-bulk}

is_complete : State → Bool
is_complete complete = true
is_complete _ = false

-- What a status says of the bytes consumed, of the region reported and of the state, where the
-- input ends at `end`.
abbrev pub agrees : ChunkStatus → ℕ → ℕ → Option (ℕ × ℕ) → Bool
agrees need_more end used none = used == end
agrees data_ready end used (some (start, n)) = (start + n == used) && ltb 0 n
agrees done end used none = true
agrees error end used none = ltb used end
agrees _ end used region = false

pub record Bounded (begin end : ℕ) (f : Feed) : Type 0 where
  pub valid : IsValid f.parser
  pub forward : begin ≤ f.consumed
  pub within : f.consumed ≤ end
  pub consistent : agrees f.status end f.consumed f.region ≡ true

feed_from-Bounded :
    (p : ChunkedParser) (xs : List ℕ) (pos : ℕ)
    → IsValid p
    → Bounded pos (pos + length xs) (feed_from p xs pos)
unfolding feed_from
feed_from-Bounded p [] pos v = ground arith
feed_from-Bounded p (c ∷ xs) pos v =
    split (round p.state p c) refl (λ q w. feed_from-Bounded q xs (pos + 1) w)
  where
    split :
        (r : Round)
        → round p.state p c ≡ r
        → ((q : ChunkedParser)
            → IsValid q
            → Bounded (pos + 1) (pos + 1 + length xs) (feed_from q xs (pos + 1)))
        → Bounded pos (pos + length (c ∷ xs)) (feed_from p (c ∷ xs) pos)
    split (next q) e ih =
        let w : IsValid q = round-IsValid p.state p c q refl v (rw e) in
        let b : Bounded (pos + 1) (pos + 1 + length xs) (feed_from q xs (pos + 1)) = ih q w in
        let shifted : pos + suc (length xs) ≡ pos + 1 + length xs = omega arith in
        rw (e, feed_from)
          (rw shifted (record {
            valid = b.valid;
            forward = omega (arith, b.forward);
            within = b.within;
            consistent = b.consistent;
          }))
    split fail e ih = rw (e, feed_from) (ground arith)
    split (finish q) e ih = rw (e, feed_from) (ground (arith, round-IsValid p.state p c q))
    split finished e ih = rw (e, feed_from) (ground arith)
    split bulk e ih = rw (e, feed_from) (ground (arith, round-bulk p.state p c))

-- A call of `feed` reads within its input and keeps the invariant. With the status Data it reports
-- a region of at least one byte that ends where the consumed bytes end, so it makes progress; with
-- NeedMore it has consumed the whole input; with Error it stops before the end of the input, at
-- the offending byte.
pub feed-Bounded : (p : ChunkedParser) (xs : List ℕ) → IsValid p → Bounded 0 (length xs) (feed p xs)
unfolding feed
feed-Bounded p xs v =
    let e : length xs ≡ 0 + length xs = omega arith in rw e (feed_from-Bounded p xs 0 v)

pub data_ready-progress :
    (f : Feed) (end : ℕ) → Bounded 0 end f → f.status ≡ data_ready → 0 < f.consumed
data_ready-progress f end b e =
    regions f.region
      (let t : agrees f.status end f.consumed f.region ≡ true = b.consistent in rw e at t)
  where
    regions : (r : Option (ℕ × ℕ)) → agrees data_ready end f.consumed r ≡ true → 0 < f.consumed
    regions none h = cc
    regions (some (start, n)) h = ground arith
