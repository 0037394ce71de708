-- ===== src/Chunked/Loop.antt =====
-- The loop of src/runtime/callbacks.cc that drives `feed` over the body bytes of one buffer.
use route_lang.Common.{
  ℕ, zero, suc, ◌+◌, ◌≤◌, ◌≡◌, refl, true, false, Bool, List, [], ◌∷◌, ◌++◌, arith, length, drop,
  length-drop,
}
use route_lang.Chunked.{ChunkedParser, ChunkStatus, need_more, data_ready, done, error, Feed, feed}
use route_lang.Chunked.Invariant.{IsValid}
use route_lang.Chunked.Bytewise.{Run, run, run-nil, report, slice, feed-run}
use route_lang.Chunked.Bounds.{Bounded, feed-Bounded, data_ready-progress}

-- `conn.req_chunk_parser`, `pos` and `conn.req_malformed` after the loop.
pub record Scan : Type 0 where
  pub parser : ChunkedParser
  pub pos : ℕ
  pub malformed : Bool

-- `while (pos < kBodyInBuf)`, over the bytes from `pos` on.
unfoldable pub scan_body : ℕ → ChunkedParser → List ℕ → ℕ → Scan
scan_body zero p rest pos = record { parser = p; pos = pos; malformed = false }
scan_body (suc fuel) p [] pos = record { parser = p; pos = pos; malformed = false }
scan_body (suc fuel) p (c ∷ rest) pos =
    let f : Feed = feed p (c ∷ rest) in
    elim f.status [
      | data_ready ↦ scan_body fuel f.parser (drop f.consumed (c ∷ rest)) (pos + f.consumed)
      | error ↦ record { parser = f.parser; pos = pos + f.consumed; malformed = true }
      | _ ↦ record { parser = f.parser; pos = pos + f.consumed; malformed = false }
    ]

-- The bytes of the regions that the calls of that loop report, which is what the contract of
-- `feed` lets a caller forward as decoded payload.
pub payload : ℕ → ChunkedParser → List ℕ → List ℕ
payload zero p rest = []
payload (suc fuel) p [] = []
payload (suc fuel) p (c ∷ rest) =
    let f : Feed = feed p (c ∷ rest) in
    elim f.status [
      | data_ready ↦ slice (c ∷ rest) f.region ++ payload fuel f.parser (drop f.consumed (c ∷ rest))
      | _ ↦ []
    ]

abbrev pub is_error : ChunkStatus → Bool
is_error error = true
is_error _ = false

-- The reading of a buffer as a result of the loop started at `pos`.
abbrev pub scanned : ℕ → Run → Scan
scanned pos r = record { parser = r.parser; pos = pos + r.used; malformed = is_error r.verdict }

-- With fuel for each byte of the buffer, the loop ends where the bytewise reading of the whole
-- buffer ends, in the same state, and `malformed` is set exactly when that reading meets an error.
pub scan_body-run :
    (fuel : ℕ) (p : ChunkedParser) (xs : List ℕ) (pos : ℕ)
    → IsValid p
    → length xs ≤ fuel
    → scan_body fuel p xs pos ≡ scanned pos (run p xs)
unfolding scan_body
scan_body-run zero p [] pos v h = ground (arith, run-nil p)
scan_body-run zero p (c ∷ xs) pos v h = absurd (omega arith)
scan_body-run (suc fuel) p [] pos v h = ground (arith, run-nil p)
scan_body-run (suc fuel) p (c ∷ xs) pos v h =
    split (feed p (c ∷ xs)) (feed p (c ∷ xs)).status refl refl (feed-Bounded p (c ∷ xs) v)
      (feed-run p (c ∷ xs) v) (λ q ys m w k. scan_body-run fuel q ys m w k)
  where
    split :
        (f : Feed) (s : ChunkStatus)
        → feed p (c ∷ xs) ≡ f
        → f.status ≡ s
        → Bounded 0 (length (c ∷ xs)) f
        → run p (c ∷ xs) ≡ report (c ∷ xs) f f.status
        → ((q : ChunkedParser) (ys : List ℕ) (m : ℕ)
            → IsValid q
            → length ys ≤ fuel
            → scan_body fuel q ys m ≡ scanned m (run q ys))
        → scan_body (suc fuel) p (c ∷ xs) pos ≡ scanned pos (run p (c ∷ xs))
    split f data_ready e t b r ih = ground (
      arith,
      e,
      r,
      data_ready-progress f (length (c ∷ xs)) b,
      length-drop f.consumed (c ∷ xs),
      ih f.parser (drop f.consumed (c ∷ xs)) (pos + f.consumed) b.valid,
    )
    split f error e t b r ih = ground (arith, e)
    split f need_more e t b r ih = ground (arith, e)
    split f done e t b r ih = ground (arith, e)

-- The regions that the loop's calls report are, in order, the payload of the bytewise reading.
pub payload-run :
    (fuel : ℕ) (p : ChunkedParser) (xs : List ℕ)
    → IsValid p
    → length xs ≤ fuel
    → payload fuel p xs ≡ (run p xs).body
unfolding payload
payload-run zero p [] v h = ground (arith, run-nil p)
payload-run zero p (c ∷ xs) v h = absurd (omega arith)
payload-run (suc fuel) p [] v h = ground (arith, run-nil p)
payload-run (suc fuel) p (c ∷ xs) v h =
    split (feed p (c ∷ xs)) (feed p (c ∷ xs)).status refl refl (feed-Bounded p (c ∷ xs) v)
      (feed-run p (c ∷ xs) v) (λ q ys w k. payload-run fuel q ys w k)
  where
    split :
        (f : Feed) (s : ChunkStatus)
        → feed p (c ∷ xs) ≡ f
        → f.status ≡ s
        → Bounded 0 (length (c ∷ xs)) f
        → run p (c ∷ xs) ≡ report (c ∷ xs) f f.status
        → ((q : ChunkedParser) (ys : List ℕ)
            → IsValid q
            → length ys ≤ fuel
            → payload fuel q ys ≡ (run q ys).body)
        → payload (suc fuel) p (c ∷ xs) ≡ (run p (c ∷ xs)).body
    split f data_ready e t b r ih = ground (
      arith,
      e,
      r,
      data_ready-progress f (length (c ∷ xs)) b,
      length-drop f.consumed (c ∷ xs),
      ih f.parser (drop f.consumed (c ∷ xs)) b.valid,
    )
    split f error e t b r ih = ground (arith, e, r)
    split f need_more e t b r ih = ground (arith, e, r)
    split f done e t b r ih = ground (arith, e, r)
