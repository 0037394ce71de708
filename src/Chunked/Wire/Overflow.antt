-- ===== src/Chunked/Wire/Overflow.antt =====
-- A size field that spells more than a u32.
use route_lang.Common.{
  ℕ, ◌+◌, ◌*◌, ◌^◌, ◌≤◌, ◌<◌, ◌≡◌, refl, true, false, Bool, Option, none, some, List, [], ◌∷◌, ◌++◌,
  arith, length, ltb, inl, inr, Bool-cases,
}
use route_lang.Chunked.{size, error, fail, round, hex_val, reset}
use route_lang.Chunked.Invariant.{hex_val-lt, reset-IsValid}
use route_lang.Chunked.Bytewise.{run}
use route_lang.Chunked.Loop.{scan_body, scan_body-run}
use route_lang.Chunked.Wire.{hex_value}
use route_lang.Chunked.Wire.SizeField.{at_size, digit_round}

digit_refused :
    (n : ℕ) (b : Bool) (d v : ℕ)
    → hex_val d ≡ some v
    → 0x0fff_ffff < n
    → round size (at_size n b) d ≡ fail
unfolding round
digit_refused n b d v e h = ground (arith, e)

run-too_large :
    (n : ℕ) (b : Bool) (ds rest : List ℕ) (m : ℕ)
    → n < 2 ^ 32
    → hex_value n ds ≡ some m
    → 2 ^ 32 ≤ m
    → (run (at_size n b) (ds ++ rest)).verdict ≡ error
unfolding run hex_value
run-too_large n b [] rest m w h big = absurd (let e : n ≡ m = cc in omega arith)
run-too_large n b (d ∷ ds) rest m w h big =
    split (hex_val d) refl (λ k u g. run-too_large k true ds rest m u g big)
  where
    split :
        (o : Option ℕ)
        → hex_val d ≡ o
        → ((k : ℕ)
            → k < 2 ^ 32
            → hex_value k ds ≡ some m
            → (run (at_size k true) (ds ++ rest)).verdict ≡ error)
        → (run (at_size n b) ((d ∷ ds) ++ rest)).verdict ≡ error
    split none e ih =
        absurd (let h' : ◌≡◌ {A = Option ℕ} none (some m) = rw (e, hex_value) at h in cc)
    split (some v) e ih =
        let h' : hex_value (n * 16 + v) ds ≡ some m = rw (e, hex_value) at h in
        elim (Bool-cases (ltb 0x0fff_ffff n)) [
          | inl over ↦ ground (arith, digit_refused n b d v e)
          | inr low ↦ ground (arith, digit_round n b d v e, hex_val-lt d v e, ih (n * 16 + v))
        ]

-- Hexadecimal digits that spell 2 ^ 32 or more are refused, whatever follows them and however many
-- leading zeros they have: the loop over `feed` ends as malformed, so no size ever wraps.
pub scan_body-too_large :
    (ds rest : List ℕ) (m : ℕ)
    → hex_value 0 ds ≡ some m
    → 2 ^ 32 ≤ m
    → (scan_body (length (ds ++ rest)) reset (ds ++ rest) 0).malformed ≡ true
unfolding reset
scan_body-too_large ds rest m h big = ground (
  arith,
  scan_body-run (length (ds ++ rest)) (at_size 0 false) (ds ++ rest) 0,
  reset-IsValid,
  run-too_large 0 false ds rest m (omega arith) h big,
)
