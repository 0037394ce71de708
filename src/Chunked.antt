-- ===== src/Chunked.antt =====
-- The HTTP chunked transfer decoder: include/rut/runtime/chunked_parser.h and
-- src/runtime/chunked_parser.cc. A byte is a number, a buffer `input[0..in_len)` a list of bytes.
-- `pos` and `*consumed` count bytes of a buffer whose length is a u32, so they cannot wrap.
pub mod Invariant
pub mod Bytewise
pub mod Bounds
pub mod Loop
pub mod Split
pub mod Wire
mod Tests
use route_lang.Common.{
  ℕ, ◌+◌, ◌-◌, ◌*◌, ◌%◌, ◌^◌, bit_or, Bool, true, false, ◌&&◌, Option, none, some, List, [], ◌∷◌,
  ltb, leb, ◌==◌, if◌then◌else◌, length,
}

-- `ChunkedParser::State`; `data_bytes` is `State::Data`.
pub data State : Type 0 where
  size size_lf extension data_bytes data_cr data_lf : State
  trailer trailer_lf trailer_line trailer_line_lf complete : State

-- `ChunkStatus`; `data_ready` is `ChunkStatus::Data`.
pub data ChunkStatus : Type 0 where
  need_more data_ready done error : ChunkStatus

pub record ChunkedParser : Type 0 where
  pub state : State
  pub chunk_remaining : ℕ
  pub has_digits : Bool

pub reset : ChunkedParser
reset = record { state = size; chunk_remaining = 0; has_digits = false }

-- `none` is the -1 of the source.
unfoldable pub hex_val : ℕ → Option ℕ
hex_val c =
    if leb b'0' c && leb c b'9'
    then some (c - b'0')
    else if leb b'a' c && leb c b'f'
    then some (10 + (c - b'a'))
    else if leb b'A' c && leb c b'F'
    then some (10 + (c - b'A'))
    else none

-- What one round of the loop of `feed` does at a byte, in every state but Data: go on behind the
-- byte, return Error before it, return Done behind it, or return Done before it. In the state Data
-- the round is `bulk_copy`.
pub data Round : Type 0 where
  next : ChunkedParser → Round
  fail : Round
  finish : ChunkedParser → Round
  finished : Round
  bulk : Round

-- `chunk_remaining = (chunk_remaining << 4) | v` on u32.
pub shift_digit : ℕ → ℕ → ℕ
shift_digit r v = bit_or (r * 16 % 2 ^ 32) v

size_digit : ChunkedParser → ℕ → Round
unfolding shift_digit
size_digit p v =
    if ltb 0x0fff_ffff p.chunk_remaining
    then fail
    else next (record p { chunk_remaining = shift_digit p.chunk_remaining v; has_digits = true })

-- The end of the size field, at `\r` or `;`.
size_end : ChunkedParser → State → Round
size_end p s = if p.has_digits then next (record p { state = s }) else fail

pub size_round : ChunkedParser → ℕ → Option ℕ → Round
unfolding size_digit size_end
size_round p c (some v) = size_digit p v
size_round p c none =
    if c == b'\r' then size_end p size_lf else if c == b';' then size_end p extension else fail

-- A state that accepts one byte only.
expect : ChunkedParser → ℕ → ℕ → State → Round
expect p c want s = if c == want then next (record p { state = s }) else fail

pub round : State → ChunkedParser → ℕ → Round
unfolding hex_val size_round expect
round size p c = size_round p c (hex_val c)
round size_lf p c = expect p c b'\n' (if p.chunk_remaining == 0 then trailer else data_bytes)
round extension p c = next (if c == b'\r' then record p { state = size_lf } else p)
round data_bytes p c = bulk
round data_cr p c = expect p c b'\r' data_lf
round data_lf p c =
    if c == b'\n'
    then next (record { state = size; chunk_remaining = 0; has_digits = false })
    else fail
round trailer p c = next (record p { state = if c == b'\r' then trailer_lf else trailer_line })
round trailer_lf p c = if c == b'\n' then finish (record p { state = complete }) else fail
round trailer_line p c = next (if c == b'\r' then record p { state = trailer_line_lf } else p)
round trailer_line_lf p c = expect p c b'\n' trailer
round complete p c = finished

-- What `feed` returns and writes through its pointers: `region` is `*out_start` and `*out_len`,
-- which are written with the status Data only.
pub record Feed : Type 0 where
  pub parser : ChunkedParser
  pub status : ChunkStatus
  pub consumed : ℕ
  pub region : Option (ℕ × ℕ)

-- The case Data: consumes min(remaining input, chunk_remaining) bytes at once.
pub bulk_copy : ChunkedParser → ℕ → ℕ → Feed
bulk_copy p avail pos =
    let n : ℕ = if ltb avail p.chunk_remaining then avail else p.chunk_remaining in
    let left : ℕ = p.chunk_remaining - n in
    record {
      parser = record p { state = if left == 0 then data_cr else p.state; chunk_remaining = left };
      status = data_ready;
      consumed = pos + n;
      region = some (pos, n);
    }

pub return_without : ChunkedParser → ChunkStatus → ℕ → Feed
return_without p s pos = record { parser = p; status = s; consumed = pos; region = none }

-- The loop, over the input from `pos` on.
pub feed_from : ChunkedParser → List ℕ → ℕ → Feed
unfolding round bulk_copy return_without
feed_from p [] pos = return_without p need_more pos
feed_from p (c ∷ rest) pos = elim (round p.state p c) [
  | next q ↦ feed_from q rest (pos + 1)
  | fail ↦ return_without p error pos
  | finish q ↦ return_without q done (pos + 1)
  | finished ↦ return_without p done pos
  | bulk ↦ bulk_copy p (length (c ∷ rest)) pos
]

pub feed : ChunkedParser → List ℕ → Feed
unfolding feed_from
feed p input = feed_from p input 0
