-- ===== src/Chunked/Split.antt =====
-- A body that arrives in several buffers reads as it reads in one.
use route_lang.Common.{ℕ, ◌+◌, ◌≡◌, ◌≢◌, refl, false, List, [], ◌∷◌, ◌++◌, arith, length}
use mathlib.Core.List.{append_assoc}
use route_lang.Chunked.{
  State, complete, ChunkedParser, ChunkStatus, need_more, data_ready, done, error, Round, next,
  fail, finish, finished, bulk, round,
}
use route_lang.Chunked.Invariant.{IsValid, round-IsValid, round-bulk, round-finish, round-finished}
use route_lang.Chunked.Bytewise.{Run, run, after, deliver}
use route_lang.Chunked.Loop.{
  Scan, scan_body, scanned, is_error, payload, scan_body-run, payload-run,
}

-- Reading goes on with `ys` where it stopped for want of bytes.
abbrev pub continue : Run → List ℕ → ChunkStatus → Run
continue r ys need_more = after r.used r.body (run r.parser ys)
continue r ys s = r

continue-after :
    (n : ℕ) (b : List ℕ) (r : Run) (ys : List ℕ) (s : ChunkStatus)
    → continue (after n b r) ys s ≡ after n b (continue r ys s)
continue-after n b r ys need_more = ground (arith, append_assoc b r.body (run r.parser ys).body)
continue-after n b r ys data_ready = refl
continue-after n b r ys done = refl
continue-after n b r ys error = refl

pub run-append :
    (p : ChunkedParser) (xs ys : List ℕ)
    → run p (xs ++ ys) ≡ continue (run p xs) ys (run p xs).verdict
unfolding run
run-append p [] ys = ground arith
run-append p (c ∷ xs) ys = split (round p.state p c) refl (λ q. run-append q xs ys)
  where
    split :
        (r : Round)
        → round p.state p c ≡ r
        → ((q : ChunkedParser) → run q (xs ++ ys) ≡ continue (run q xs) ys (run q xs).verdict)
        → run p ((c ∷ xs) ++ ys) ≡ continue (run p (c ∷ xs)) ys (run p (c ∷ xs)).verdict
    split (next q) e ih =
        ground (arith, e, ih q, continue-after 1 [] (run q xs) ys (run q xs).verdict)
    split fail e ih = ground (arith, e)
    split (finish q) e ih = ground (arith, e)
    split finished e ih = ground (arith, e)
    split bulk e ih = ground (
      arith,
      e,
      ih (deliver p),
      continue-after 1 (c ∷ []) (run (deliver p) xs) ys (run (deliver p) xs).verdict,
    )

deliver-IsValid : (p : ChunkedParser) → p.state ≡ State.data_bytes → IsValid p → IsValid (deliver p)
deliver-IsValid p e v = ground arith

-- Reading keeps the invariant, and stops as done in the state Complete only.
pub record Stopped (r : Run) : Type 0 where
  pub valid : IsValid r.parser
  pub at_end : r.verdict ≡ done → r.parser.state ≡ complete
  pub known : r.verdict ≢ data_ready

pub run-Stopped : (p : ChunkedParser) (xs : List ℕ) → IsValid p → Stopped (run p xs)
unfolding run
run-Stopped p [] v = record { valid = v; at_end = λ h. cc; known = λ h. cc }
run-Stopped p (c ∷ xs) v = split (round p.state p c) refl (λ q w. run-Stopped q xs w)
  where
    split :
        (r : Round)
        → round p.state p c ≡ r
        → ((q : ChunkedParser) → IsValid q → Stopped (run q xs))
        → Stopped (run p (c ∷ xs))
    split (next q) e ih =
        let w : Stopped (run q xs) = ih q (round-IsValid p.state p c q refl v (rw e)) in
        rw (e, run) (record { valid = w.valid; at_end = w.at_end; known = w.known })
    split fail e ih = rw (e, run) (record { valid = v; at_end = λ h. cc; known = λ h. cc })
    split (finish q) e ih =
        rw (e, run)
          (record {
            valid = round-IsValid p.state p c q refl v (rw e);
            at_end = λ h. round-finish p.state p c q e;
            known = λ h. cc;
          })
    split finished e ih =
        rw (e, run)
          (record { valid = v; at_end = λ h. round-finished p.state p c e; known = λ h. cc })
    split bulk e ih =
        let w : Stopped (run (deliver p) xs) =
          ih (deliver p) (deliver-IsValid p (round-bulk p.state p c e) v) in
        rw (e, run) (record { valid = w.valid; at_end = w.at_end; known = w.known })

still_reading :
    (r : Run) (s : ChunkStatus)
    → r.verdict ≡ s
    → Stopped r
    → (scanned 0 r).malformed ≡ false
    → r.parser.state ≢ complete
    → s ≡ need_more
still_reading r need_more e w m n = refl
still_reading r data_ready e w m n = absurd (w.known e)
still_reading r done e w m n = absurd (n (w.at_end e))
still_reading r error e w m n = absurd (let h : is_error error ≡ false = rw e at m in cc h)

-- `xs` and then `ys` are received, and the loop over `xs` met neither an error nor the end of the
-- body. Then the loop over both buffers at once ends in the same place and state as the loop over
-- `ys` that goes on from the state left by the loop over `xs`, and it delivers the same payload.
pub scan_body-append :
    (p : ChunkedParser) (xs ys : List ℕ)
    → IsValid p
    → (scan_body (length xs) p xs 0).malformed ≡ false
    → (scan_body (length xs) p xs 0).parser.state ≢ complete
    → let s : Scan = scan_body (length xs) p xs 0 in
      (scan_body (length (xs ++ ys)) p (xs ++ ys) 0 ≡ scan_body (length ys) s.parser ys s.pos)
      × (payload (length (xs ++ ys)) p (xs ++ ys)
          ≡ payload (length xs) p xs ++ payload (length ys) s.parser ys)
scan_body-append p xs ys v m n = ground (
  arith,
  first,
  more,
  run-append p xs ys,
  scan_body-run (length (xs ++ ys)) p (xs ++ ys) 0 v,
  payload-run (length (xs ++ ys)) p (xs ++ ys) v,
  payload-run (length xs) p xs v,
  scan_body-run (length ys) (run p xs).parser ys (0 + (run p xs).used) w.valid,
  payload-run (length ys) (run p xs).parser ys w.valid,
)
  where
    first : scan_body (length xs) p xs 0 ≡ scanned 0 (run p xs)
    first = scan_body-run (length xs) p xs 0 v (omega arith)

    w : Stopped (run p xs)
    w = run-Stopped p xs v

    more : (run p xs).verdict ≡ need_more
    more = still_reading (run p xs) (run p xs).verdict refl w (rw first at m) (λ e. n (rw first e))
