-- ===== src/Chunked/Bytewise.antt =====
-- The decoder one byte at a time, and the proof that `feed`, which copies chunk data in bulk, agrees
-- with it up to the point where it returns. Both take the same `round` in every state but Data.
use route_lang.Common.{
  ℕ, zero, suc, ◌+◌, ◌-◌, ◌≤◌, ◌<◌, ◌==◌, ◌≡◌, refl, ap, Option, some, none, List, [], ◌∷◌, ◌++◌,
  arith, ltb, if◌then◌else◌, length, take, drop,
}
use route_lang.Chunked.{
  data_bytes, data_cr, ChunkedParser, ChunkStatus, need_more, data_ready, done, error, Round, next,
  fail, finish, finished, bulk, round, Feed, feed_from, feed,
}
use route_lang.Chunked.Invariant.{IsValid, round-IsValid, round-bulk}

-- The payload in an input, how many bytes were read, and why the reading stopped.
pub record Run : Type 0 where
  pub parser : ChunkedParser
  pub body : List ℕ
  pub used : ℕ
  pub verdict : ChunkStatus

-- One byte of chunk data.
abbrev pub deliver : ChunkedParser → ChunkedParser
deliver p = record p {
  state = if p.chunk_remaining == 1 then data_cr else p.state;
  chunk_remaining = p.chunk_remaining - 1;
}

-- A run that had `n` more bytes in front of it, with payload `b`.
abbrev pub after : ℕ → List ℕ → Run → Run
after n b r = record r { body = b ++ r.body; used = n + r.used }

unfoldable pub run : ChunkedParser → List ℕ → Run
run p [] = record { parser = p; body = []; used = 0; verdict = need_more }
run p (c ∷ rest) = elim (round p.state p c) [
  | next q ↦ after 1 [] (run q rest)
  | fail ↦ record { parser = p; body = []; used = 0; verdict = error }
  | finish q ↦ record { parser = q; body = []; used = 1; verdict = done }
  | finished ↦ record { parser = p; body = []; used = 0; verdict = done }
  | bulk ↦ after 1 (c ∷ []) (run (deliver p) rest)
]

pub run-nil :
    (p : ChunkedParser) → run p [] ≡ record { parser = p; body = []; used = 0; verdict = need_more }
unfolding run
run-nil p = refl

abbrev pub slice : List ℕ → Option (ℕ × ℕ) → List ℕ
slice input none = []
slice input (some (start, n)) = take n (drop start input)

-- What a return of `feed` on `input` says: with the status Data its region is payload, and the
-- rest of the input is still to be fed; with any other status the reading stops.
abbrev pub report : List ℕ → Feed → ChunkStatus → Run
report input f data_ready =
    after f.consumed (slice input f.region) (run f.parser (drop f.consumed input))
report input f s = record { parser = f.parser; body = []; used = f.consumed; verdict = s }

-- A return of `feed` on an input that has `n` more bytes in front.
abbrev shift : ℕ → Feed → Feed
shift n f = record f {
  consumed = n + f.consumed;
  region = elim f.region [ none ↦ none | some (start, k) ↦ some (n + start, k) ];
}

-- Where the reading stands when `n` bytes of chunk data have been copied.
abbrev copied : ChunkedParser → ℕ → ChunkedParser
copied p n =
    let left : ℕ = p.chunk_remaining - n in
    record p { state = if left == 0 then data_cr else p.state; chunk_remaining = left }

feed_from-shift :
    (p : ChunkedParser) (xs : List ℕ) (n : ℕ) → feed_from p xs n ≡ shift n (feed_from p xs 0)
unfolding feed_from
feed_from-shift p [] n = ground arith
feed_from-shift p (c ∷ xs) n = split (round p.state p c) refl (λ q m. feed_from-shift q xs m)
  where
    split :
        (r : Round)
        → round p.state p c ≡ r
        → ((q : ChunkedParser) (m : ℕ) → feed_from q xs m ≡ shift m (feed_from q xs 0))
        → feed_from p (c ∷ xs) n ≡ shift n (feed_from p (c ∷ xs) 0)
    split (next q) e ih = ground (arith, e, ih q (n + 1), ih q 1)
    split fail e ih = ground (arith, e)
    split (finish q) e ih = ground (arith, e)
    split finished e ih = ground (arith, e)
    split bulk e ih = ground (arith, e)

cong_round : (p : ChunkedParser) (c : ℕ) → p.state ≡ data_bytes → round p.state p c ≡ bulk
unfolding round
cong_round p c e = rw e

copied-zero : (p : ChunkedParser) → 0 < p.chunk_remaining → copied p 0 ≡ p
copied-zero p h = ground arith

-- Reading chunk data byte by byte is copying it.
run-copied :
    (p : ChunkedParser) (xs : List ℕ) (n : ℕ)
    → p.state ≡ data_bytes
    → 0 < p.chunk_remaining
    → n ≤ length xs
    → n ≤ p.chunk_remaining
    → run p xs ≡ after n (take n xs) (run (copied p n) (drop n xs))
unfolding run
run-copied p xs zero e pos h k = rw (copied-zero p pos) (ground arith)
run-copied p [] (suc n) e pos h k = absurd (omega arith)
run-copied p (c ∷ xs) (suc zero) e pos h k = ground (arith, cong_round p c e)
run-copied p (c ∷ xs) (suc (suc n)) e pos h k =
    ground (arith, cong_round p c e, run-copied (deliver p) xs (suc n))

drop-one : (c : ℕ) (xs : List ℕ) (n : ℕ) → drop (1 + n) (c ∷ xs) ≡ drop n xs
drop-one c xs n = let e : 1 + n ≡ suc n = omega arith in rw e

report-shift :
    (c : ℕ) (xs : List ℕ) (f : Feed) (s : ChunkStatus)
    → report (c ∷ xs) (shift 1 f) s ≡ after 1 [] (report xs f s)
report-shift c xs f need_more = refl
report-shift c xs f data_ready = ground (arith, drop-one c xs f.consumed, regions f.region)
  where
    regions :
        (r : Option (ℕ × ℕ)) → f.region ≡ r → slice (c ∷ xs) (shift 1 f).region ≡ slice xs f.region
    regions none e = rw e
    regions (some (start, n)) e = rw e (ap (take n) (drop-one c xs start))
report-shift c xs f done = refl
report-shift c xs f error = refl

-- One call of `feed` reads a part of the input as `run` reads it, and leaves the decoder in a
-- state from which the rest of the input reads as it would have read without the return.
pub feed-run :
    (p : ChunkedParser) (xs : List ℕ)
    → IsValid p
    → run p xs ≡ report xs (feed p xs) (feed p xs).status
unfolding feed feed_from run
feed-run p [] v = ground arith
feed-run p (c ∷ xs) v = split (round p.state p c) refl (λ q w. feed-run q xs w)
  where
    split :
        (r : Round)
        → round p.state p c ≡ r
        → ((q : ChunkedParser) → IsValid q → run q xs ≡ report xs (feed q xs) (feed q xs).status)
        → run p (c ∷ xs) ≡ report (c ∷ xs) (feed p (c ∷ xs)) (feed p (c ∷ xs)).status
    split (next q) e ih = ground (
      arith,
      e,
      ih q,
      round-IsValid p.state p c q,
      feed_from-shift q xs 1,
      report-shift c xs (feed q xs) (feed q xs).status,
    )
    split fail e ih = ground (arith, e)
    split (finish q) e ih = ground (arith, e)
    split finished e ih = ground (arith, e)
    split bulk e ih = ground (
      arith,
      e,
      round-bulk p.state p c,
      run-copied p (c ∷ xs)
          (if ltb (suc (length xs)) p.chunk_remaining then suc (length xs) else p.chunk_remaining),
    )
