-- ===== src/Chunked/Wire/Message.antt =====
-- Reading a whole body.
use route_lang.Common.{
  ℕ, suc, ◌≡◌, ◌≢◌, refl, subst, ◌⊎◌, inl, inr, false, List, [], ◌∷◌, ◌++◌, All, arith, length,
  length-append,
}
use mathlib.Core.List.{append_assoc, append-nil}
use route_lang.Chunked.{
  State, data_bytes, data_cr, data_lf, trailer, trailer_line, trailer_line_lf, complete,
  ChunkedParser, done, next, round, reset,
}
use route_lang.Chunked.Invariant.{reset-IsValid}
use route_lang.Chunked.Bytewise.{run}
use route_lang.Chunked.Wire.{
  crlf, Chunk, size_line, NoCr, WellSized, write_chunk, LineOk, write_line, write_lines,
  write_chunks, Body, write_body, WellFormed, bodies,
}
use route_lang.Chunked.Loop.{scan_body, payload, scan_body-run, payload-run}
use route_lang.Chunked.Wire.Reading.{Reads, Reads-append, Reads-nil, Reads-byte, Reads-loop}
use route_lang.Chunked.Wire.SizeField.{parser_at, after_size, Reads-crlf, Reads-size_line}

Reads-data :
    (c : ℕ) (bytes : List ℕ)
    → Reads
        (parser_at data_bytes (suc (length bytes)))
        (c ∷ bytes)
        (c ∷ bytes)
        (parser_at data_cr 0)
unfolding run round
Reads-data c [] = record { reads = λ rest. ground arith }
Reads-data c (d ∷ bytes) = record {
  reads = λ rest. ground (arith, (Reads-data d bytes).reads rest);
}

-- `\r\n` behind the bytes of a chunk takes the decoder back to its start.
Reads-chunk_end : Reads (parser_at data_cr 0) crlf [] reset
unfolding round reset
Reads-chunk_end = Reads-crlf (parser_at data_cr 0) (parser_at data_lf 0) reset refl refl

Reads-body :
    (bytes : List ℕ) → bytes ≢ [] → Reads (after_size (length bytes)) (bytes ++ crlf) bytes reset
Reads-body [] h = absurd (h refl)
Reads-body (c ∷ bytes) h =
    subst (λ b. Reads (after_size (suc (length bytes))) ((c ∷ bytes) ++ crlf) b reset)
      (append-nil (c ∷ bytes))
      (Reads-append (after_size (suc (length bytes))) (parser_at data_cr 0) reset (c ∷ bytes) crlf
        (c ∷ bytes) [] (rw nonzero (Reads-data c bytes)) Reads-chunk_end)
  where
    nonzero : after_size (suc (length bytes)) ≡ parser_at data_bytes (suc (length bytes))
    nonzero = ground arith

Reads-chunk : (c : Chunk) → WellSized c → c.bytes ≢ [] → Reads reset (write_chunk c) c.bytes reset
Reads-chunk c w h =
    Reads-append reset (after_size (length c.bytes)) reset (size_line c) (c.bytes ++ crlf) []
      c.bytes (Reads-size_line c w) (Reads-body c.bytes h)

Reads-chunks :
    (cs : List Chunk)
    → All (λ (c : Chunk). WellSized c × (c.bytes ≢ [])) cs
    → Reads reset (write_chunks cs) (bodies cs) reset
Reads-chunks [] h = Reads-nil reset
Reads-chunks (c ∷ cs) h =
    Reads-append reset reset reset (write_chunk c) (write_chunks cs) c.bytes (bodies cs)
      (Reads-chunk c h.0.0 h.0.1) (Reads-chunks cs h.1)

trailer_byte :
    (s : State) (c : ℕ)
    → c ≢ b'\r'
    → (s ≡ trailer) ⊎ (s ≡ trailer_line)
    → round s (parser_at s 0) c ≡ next (parser_at trailer_line 0)
unfolding round
trailer_byte s c h k = ground arith

trailer_loop :
    (l : List ℕ)
    → NoCr l
    → All (λ c. round trailer_line (parser_at trailer_line 0) c ≡ next (parser_at trailer_line 0)) l
trailer_loop [] h = tt
trailer_loop (c ∷ l) h = (trailer_byte trailer_line c h.0 (inr refl), trailer_loop l h.1)

Reads-line :
    (l : List ℕ) → LineOk l → Reads (parser_at trailer 0) (write_line l) [] (parser_at trailer 0)
unfolding round
Reads-line [] h = absurd (h.0 refl)
Reads-line (c ∷ l) h =
    Reads-append (parser_at trailer 0) (parser_at trailer_line 0) (parser_at trailer 0) (c ∷ [])
      (l ++ crlf) [] []
      (Reads-byte (parser_at trailer 0) (parser_at trailer_line 0) c
        (trailer_byte trailer c h.1.0 (inl refl)))
      (Reads-append (parser_at trailer_line 0) (parser_at trailer_line 0) (parser_at trailer 0) l
        crlf [] [] (Reads-loop (parser_at trailer_line 0) l (trailer_loop l h.1.1))
        (Reads-crlf (parser_at trailer_line 0) (parser_at trailer_line_lf 0) (parser_at trailer 0)
          refl refl))

Reads-lines :
    (ls : List (List ℕ))
    → All LineOk ls
    → Reads (parser_at trailer 0) (write_lines ls) [] (parser_at trailer 0)
Reads-lines [] h = Reads-nil (parser_at trailer 0)
Reads-lines (l ∷ ls) h =
    Reads-append (parser_at trailer 0) (parser_at trailer 0) (parser_at trailer 0) (write_line l)
      (write_lines ls) [] [] (Reads-line l h.0) (Reads-lines ls h.1)

-- The empty line that ends the body.
run-end :
    (rest : List ℕ)
    → run (parser_at trailer 0) (crlf ++ rest)
      ≡ record { parser = parser_at complete 0; body = []; used = 2; verdict = done }
unfolding run round
run-end rest = refl

Reads-last :
    (c : Chunk) → WellSized c → c.bytes ≡ [] → Reads reset (size_line c) [] (parser_at trailer 0)
Reads-last c w e =
    subst (λ b. Reads reset (size_line c) [] (after_size (length b))) e (Reads-size_line c w)

-- The parts of a body in a row, over any bytes.
run-parts :
    (p q r s : ChunkedParser) (xs ys zs end b rest : List ℕ) (t : ChunkedParser)
    → Reads p xs b q
    → Reads q ys [] r
    → Reads r zs [] s
    → run s (end ++ rest) ≡ record { parser = t; body = []; used = length end; verdict = done }
    → run p ((xs ++ (ys ++ (zs ++ end))) ++ rest)
      ≡ record { parser = t; body = b; used = length (xs ++ (ys ++ (zs ++ end))); verdict = done }
run-parts p q r s xs ys zs end b rest t h k l e = ground (
  arith,
  append_assoc xs (ys ++ (zs ++ end)) rest,
  append_assoc ys (zs ++ end) rest,
  append_assoc zs end rest,
  h.reads (ys ++ (zs ++ (end ++ rest))),
  k.reads (zs ++ (end ++ rest)),
  l.reads (end ++ rest),
  length-append xs (ys ++ (zs ++ end)),
  length-append ys (zs ++ end),
  length-append zs end,
  append-nil b,
)

-- Whatever follows it, a well-formed body is read to its end and no further, and delivers the
-- bytes of its chunks in order.
pub run-write_body :
    (b : Body) (rest : List ℕ)
    → WellFormed b
    → run reset (write_body b ++ rest) ≡ record {
      parser = parser_at complete 0;
      body = bodies b.chunks;
      used = length (write_body b);
      verdict = done;
    }
run-write_body b rest w =
    run-parts reset reset (parser_at trailer 0) (parser_at trailer 0) (write_chunks b.chunks)
      (size_line b.last) (write_lines b.lines) crlf (bodies b.chunks) rest (parser_at complete 0)
      (Reads-chunks b.chunks w.chunks_ok) (Reads-last b.last w.last_ok w.last_empty)
      (Reads-lines b.lines w.lines_ok) (run-end rest)

-- The loop over `feed` decodes every well-formed body, whatever follows it in the buffer: the
-- regions it reports are the bytes of the chunks in order, it stops right behind the body, it
-- reports no error, and the decoder is Complete.
pub scan_body-write_body :
    (b : Body) (rest : List ℕ)
    → WellFormed b
    → let input : List ℕ = write_body b ++ rest in
      (payload (length input) reset input ≡ bodies b.chunks)
      × (scan_body (length input) reset input 0 ≡ record {
        parser = parser_at complete 0;
        pos = length (write_body b);
        malformed = false;
      })
scan_body-write_body b rest w = ground (
  arith,
  run-write_body b rest w,
  reset-IsValid,
  payload-run (length (write_body b ++ rest)) reset (write_body b ++ rest),
  scan_body-run (length (write_body b ++ rest)) reset (write_body b ++ rest) 0,
)
