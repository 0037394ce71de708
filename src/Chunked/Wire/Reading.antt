-- ===== src/Chunked/Wire/Reading.antt =====
-- How the bytewise reading composes over the parts of an input.
use route_lang.Common.{ℕ, ◌≡◌, List, [], ◌∷◌, ◌++◌, All, arith, length, length-append}
use mathlib.Core.List.{append_assoc}
use route_lang.Chunked.{ChunkedParser, next, round}
use route_lang.Chunked.Bytewise.{run, after}

-- Reading `xs` takes the decoder from `p` to `q` and delivers `b`, whatever follows.
pub record Reads (p : ChunkedParser) (xs b : List ℕ) (q : ChunkedParser) : Type 0 where
  pub reads : (rest : List ℕ) → run p (xs ++ rest) ≡ after (length xs) b (run q rest)

pub Reads-append :
    (p q r : ChunkedParser) (xs ys b c : List ℕ)
    → Reads p xs b q
    → Reads q ys c r
    → Reads p (xs ++ ys) (b ++ c) r
Reads-append p q r xs ys b c h k = record {
  reads = λ rest. ground (
    arith,
    append_assoc xs ys rest,
    h.reads (ys ++ rest),
    k.reads rest,
    length-append xs ys,
    append_assoc b c (run r rest).body,
  );
}

pub Reads-nil : (p : ChunkedParser) → Reads p [] [] p
Reads-nil p = record { reads = λ rest. ground arith }

pub Reads-byte : (p q : ChunkedParser) (c : ℕ) → round p.state p c ≡ next q → Reads p (c ∷ []) [] q
unfolding run
Reads-byte p q c e = record { reads = λ rest. ground (arith, e) }

-- A state that the bytes `xs` do not leave.
pub Reads-loop :
    (p : ChunkedParser) (xs : List ℕ) → All (λ c. round p.state p c ≡ next p) xs → Reads p xs [] p
Reads-loop p [] h = Reads-nil p
Reads-loop p (c ∷ xs) h =
    Reads-append p p p (c ∷ []) xs [] [] (Reads-byte p p c h.0) (Reads-loop p xs h.1)
