-- ===== src/Chunked/Tests.antt =====
-- Runs of the decoder on concrete inputs, and the theorems at such inputs.
use route_lang.Common.{
  ℕ, ◌^◌, ◌≡◌, refl, true, false, none, some, List, [], ◌∷◌, ◌++◌, arith, length,
}
use route_lang.Chunked.{State, data_ready, error, reset, hex_val, feed}
use route_lang.Chunked.Invariant.{reset-IsValid}
use route_lang.Chunked.Bytewise.{run, report, feed-run}
use route_lang.Chunked.Bounds.{Bounded, feed-Bounded}
use route_lang.Chunked.Loop.{Scan, scan_body, payload}
use route_lang.Chunked.Split.{scan_body-append}
use route_lang.Chunked.Wire.{Chunk, Body, WellFormed, write_body, bodies, hex_value}
use route_lang.Chunked.Wire.Message.{scan_body-write_body}
use route_lang.Chunked.Wire.Overflow.{scan_body-too_large}

-- "3\r\nabc\r\n0\r\n\r\n"
abbrev hello : List ℕ
hello =
    b'3' ∷ b'\r' ∷ b'\n' ∷ b'a' ∷ b'b' ∷ b'c' ∷ b'\r' ∷ b'\n' ∷ b'0' ∷ b'\r' ∷ b'\n' ∷ b'\r' ∷ b'\n'
    ∷ []

feed-hello : feed reset hello ≡ record {
  parser = record { state = State.data_cr; chunk_remaining = 0; has_digits = true };
  status = data_ready;
  consumed = 6;
  region = some (3, 3);
}
unfolding feed reset
feed-hello = refl

-- A bare `\n` behind the size is malformed.
feed-bare_lf : (feed reset (b'3' ∷ b'\n' ∷ [])).status ≡ error
unfolding feed reset
feed-bare_lf = refl

abbrev three : Chunk
three = record { digits = b'3' ∷ []; suffix = some (b'x' ∷ []); bytes = b'a' ∷ b'b' ∷ b'c' ∷ [] }

abbrev two : Chunk
two = record { digits = b'0' ∷ b'2' ∷ []; suffix = none; bytes = b'\r' ∷ b'\n' ∷ [] }

abbrev last : Chunk
last = record { digits = b'0' ∷ []; suffix = none; bytes = [] }

-- Two chunks, the last chunk and the trailer line "k:v".
abbrev sample : Body
sample = record { chunks = three ∷ two ∷ []; last = last; lines = (b'k' ∷ b':' ∷ b'v' ∷ []) ∷ [] }

sample-WellFormed : WellFormed sample
unfolding hex_value hex_val
sample-WellFormed = ground arith

scan_body-write_body_example :
    (payload (length (write_body sample ++ hello)) reset (write_body sample ++ hello)
      ≡ bodies sample.chunks)
    × (scan_body (length (write_body sample ++ hello)) reset (write_body sample ++ hello) 0
        ≡ record {
          parser = record { state = State.complete; chunk_remaining = 0; has_digits = true };
          pos = length (write_body sample);
          malformed = false;
        })
scan_body-write_body_example = scan_body-write_body sample hello sample-WellFormed

-- "3\r\na", then "bc\r\n0\r\n\r\n"
abbrev front : List ℕ
front = b'3' ∷ b'\r' ∷ b'\n' ∷ b'a' ∷ []

abbrev back : List ℕ
back = b'b' ∷ b'c' ∷ b'\r' ∷ b'\n' ∷ b'0' ∷ b'\r' ∷ b'\n' ∷ b'\r' ∷ b'\n' ∷ []

scan_body-append_example :
    let s : Scan = scan_body 4 reset front 0 in
    (scan_body 13 reset (front ++ back) 0 ≡ scan_body 9 s.parser back s.pos)
    × (payload 13 reset (front ++ back) ≡ payload 4 reset front ++ payload 9 s.parser back)
unfolding scan_body feed reset
scan_body-append_example = scan_body-append reset front back reset-IsValid refl (λ e. cc)

feed-run_example : run reset hello ≡ report hello (feed reset hello) (feed reset hello).status
feed-run_example = feed-run reset hello reset-IsValid

feed-Bounded_example : Bounded 0 13 (feed reset hello)
feed-Bounded_example = feed-Bounded reset hello reset-IsValid

-- Nine digits, the first of them 1, spell 2 ^ 32.
abbrev nine : List ℕ
nine = b'1' ∷ b'0' ∷ b'0' ∷ b'0' ∷ b'0' ∷ b'0' ∷ b'0' ∷ b'0' ∷ b'0' ∷ []

scan_body-too_large_example : (scan_body 11 reset (nine ++ b'\r' ∷ b'\n' ∷ []) 0).malformed ≡ true
unfolding hex_value hex_val
scan_body-too_large_example =
    scan_body-too_large nine (b'\r' ∷ b'\n' ∷ []) (2 ^ 32) refl (omega arith)
