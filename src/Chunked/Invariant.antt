-- ===== src/Chunked/Invariant.antt =====
-- What every reachable state of the decoder satisfies, and how far one call of `feed` moves.
use route_lang.Common.{
  ℕ, ◌+◌, ◌*◌, ◌%◌, ◌^◌, ◌≤◌, ◌<◌, ◌==◌, ◌&&◌, ◌≡◌, refl, true, Bool, Option, some, none, arith,
  ltb, bit_or, bit_or_nibble,
}
use route_lang.Chunked.{
  State, size, size_lf, extension, data_bytes, data_cr, data_lf, complete, ChunkedParser, Round,
  next, finish, finished, bulk, reset, hex_val, shift_digit, round, size_round,
}

-- What a state says of the other two fields.
abbrev pub holds : State → ℕ → Bool → Bool
holds size_lf r d = d
holds extension r d = d
holds data_bytes r d = ltb 0 r && d
holds data_cr r d = r == 0
holds data_lf r d = r == 0
holds s r d = true

pub record IsValid (p : ChunkedParser) : Type 0 where
  pub word : p.chunk_remaining < 2 ^ 32
  pub fits : holds p.state p.chunk_remaining p.has_digits ≡ true

pub reset-IsValid : IsValid reset
unfolding reset
reset-IsValid = ground arith

pub hex_val-lt : (c : ℕ) (v : ℕ) → hex_val c ≡ some v → v < 16
unfolding hex_val
hex_val-lt c v h = ground arith

-- Below the guard, shifting a digit in is `16 * r + v`, and does not overflow.
pub shift_digit_lem :
    (r v : ℕ)
    → r ≤ 0x0fff_ffff
    → v < 16
    → (shift_digit r v ≡ r * 16 + v) × (shift_digit r v < 2 ^ 32)
unfolding shift_digit
shift_digit_lem r v h k = (e, omega (arith, e))
  where
    fits : r * 16 % 2 ^ 32 ≡ r * 16
    fits = omega arith

    e : bit_or (r * 16 % 2 ^ 32) v ≡ r * 16 + v
    e = rw fits (bit_or_nibble r v k)

-- The parser that a round leaves behind, if it goes on or ends.
abbrev pub round_parser : Round → Option ChunkedParser
round_parser (next q) = some q
round_parser (finish q) = some q
round_parser r = none

size_round-IsValid :
    (p : ChunkedParser) (c : ℕ) (v : Option ℕ) (q : ChunkedParser)
    → hex_val c ≡ v
    → p.state ≡ size
    → p.chunk_remaining < 2 ^ 32
    → round_parser (size_round p c v) ≡ some q
    → IsValid q
unfolding size_round
size_round-IsValid p c (some v) q e s w h =
    ground (arith, shift_digit_lem p.chunk_remaining v, hex_val-lt c v)
size_round-IsValid p c none q e s w h = ground arith

-- Every round keeps the invariant.
pub round-IsValid :
    (s : State) (p : ChunkedParser) (c : ℕ) (q : ChunkedParser)
    → p.state ≡ s
    → IsValid p
    → round_parser (round s p c) ≡ some q
    → IsValid q
unfolding round
round-IsValid size p c q e v h = size_round-IsValid p c (hex_val c) q refl e v.word h
round-IsValid size_lf p c q e v h = ground arith
round-IsValid _ p c q e v h = ground arith

-- Chunk data is copied in one state only.
pub round-bulk : (s : State) (p : ChunkedParser) (c : ℕ) → round s p c ≡ bulk → s ≡ data_bytes
unfolding round
round-bulk State.size p c e = ground arith
round-bulk State.size_lf p c e = ground arith
round-bulk _ p c e = ground arith

-- The decoder reports Done in one state only.
pub round-finish :
    (s : State) (p : ChunkedParser) (c : ℕ) (q : ChunkedParser)
    → round s p c ≡ finish q
    → q.state ≡ complete
unfolding round
round-finish State.size p c q e = ground arith
round-finish State.size_lf p c q e = ground arith
round-finish _ p c q e = ground arith

pub round-finished : (s : State) (p : ChunkedParser) (c : ℕ) → round s p c ≡ finished → s ≡ complete
unfolding round
round-finished State.size p c e = ground arith
round-finished State.size_lf p c e = ground arith
round-finished _ p c e = ground arith
