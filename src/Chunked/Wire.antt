-- ===== src/Chunked/Wire.antt =====
-- The chunked format, written out as a grammar, and the proof that the decoder reads it.
pub mod Reading
pub mod SizeField
pub mod Message
pub mod Overflow
use route_lang.Common.{
  ℕ, ◌+◌, ◌*◌, ◌^◌, ◌≤◌, ◌<◌, ◌≡◌, ◌≢◌, refl, subst, true, false, Bool, Option, none, some, List,
  [], ◌∷◌, ◌++◌, All, arith, length, length-append, ◌==◌, if◌then◌else◌,
}
use mathlib.Core.List.{append_assoc}
use route_lang.Chunked.{
  State, size, size_lf, extension, data_bytes, trailer, ChunkedParser, next, round, hex_val, reset,
}
use route_lang.Chunked.Invariant.{shift_digit_lem, hex_val-lt}
use route_lang.Chunked.Bytewise.{run, after}

-- The number that hexadecimal digits spell, after digits of value `n`.
unfoldable pub hex_value : ℕ → List ℕ → Option ℕ
hex_value n [] = some n
hex_value n (d ∷ ds) = elim (hex_val d) [ none ↦ none | some v ↦ hex_value (n * 16 + v) ds ]

abbrev pub crlf : List ℕ
crlf = b'\r' ∷ b'\n' ∷ []

-- A chunk: the digits of its size, an extension that has no `\r`, and its bytes.
pub record Chunk : Type 0 where
  pub digits : List ℕ
  pub suffix : Option (List ℕ)
  pub bytes : List ℕ

abbrev pub write_suffix : Option (List ℕ) → List ℕ
write_suffix none = []
write_suffix (some e) = b';' ∷ e

abbrev pub size_line : Chunk → List ℕ
size_line c = c.digits ++ (write_suffix c.suffix ++ crlf)

abbrev pub NoCr : List ℕ → Type 0
NoCr = All (λ b. b ≢ b'\r')

abbrev pub SuffixOk : Option (List ℕ) → Type 0
SuffixOk none = Unit {0}
SuffixOk (some e) = NoCr e

-- The size field is not empty and spells the number of bytes, which is a u32.
pub record WellSized (c : Chunk) : Type 0 where
  pub spelled : hex_value 0 c.digits ≡ some (length c.bytes)
  pub some_digit : c.digits ≢ []
  pub word : length c.bytes < 2 ^ 32
  pub clean : SuffixOk c.suffix

abbrev pub write_chunk : Chunk → List ℕ
write_chunk c = size_line c ++ (c.bytes ++ crlf)

-- A trailer line: not empty, and with no `\r` inside.
abbrev pub LineOk : List ℕ → Type 0
LineOk l = (l ≢ []) × NoCr l

abbrev pub write_line : List ℕ → List ℕ
write_line l = l ++ crlf

abbrev pub write_lines : List (List ℕ) → List ℕ
write_lines [] = []
write_lines (l ∷ ls) = write_line l ++ write_lines ls

abbrev pub write_chunks : List Chunk → List ℕ
write_chunks [] = []
write_chunks (c ∷ cs) = write_chunk c ++ write_chunks cs

-- A body: its chunks, the last chunk, which has no bytes, and its trailer lines.
pub record Body : Type 0 where
  pub chunks : List Chunk
  pub last : Chunk
  pub lines : List (List ℕ)

abbrev pub write_body : Body → List ℕ
write_body b = write_chunks b.chunks ++ (size_line b.last ++ (write_lines b.lines ++ crlf))

pub record WellFormed (b : Body) : Type 0 where
  pub chunks_ok : All (λ (c : Chunk). WellSized c × (c.bytes ≢ [])) b.chunks
  pub last_ok : WellSized b.last
  pub last_empty : b.last.bytes ≡ []
  pub lines_ok : All LineOk b.lines

-- What the body carries.
abbrev pub bodies : List Chunk → List ℕ
bodies [] = []
bodies (c ∷ cs) = c.bytes ++ bodies cs
