-- ===== src/Chunked/Wire/SizeField.antt =====
-- Reading the size line of a chunk.
use route_lang.Common.{
  ℕ, ◌+◌, ◌*◌, ◌^◌, ◌≤◌, ◌<◌, ◌≡◌, ◌≢◌, refl, true, false, Bool, Option, none, some, List, [], ◌∷◌,
  ◌++◌, All, arith, length, ◌==◌, if◌then◌else◌,
}
use route_lang.Chunked.{
  State, size, size_lf, extension, data_bytes, trailer, ChunkedParser, next, round, hex_val, reset,
}
use route_lang.Chunked.Invariant.{shift_digit_lem, hex_val-lt}
use route_lang.Chunked.Wire.{
  hex_value, crlf, Chunk, write_suffix, size_line, NoCr, SuffixOk, WellSized,
}
use route_lang.Chunked.Wire.Reading.{Reads, Reads-append, Reads-nil, Reads-byte, Reads-loop}

-- The size field. The guard on `chunk_remaining` never refuses digits that spell a u32.
pub hex_value_mono : (n : ℕ) (ds : List ℕ) (m : ℕ) → hex_value n ds ≡ some m → n ≤ m
unfolding hex_value
hex_value_mono n [] m h = ground arith
hex_value_mono n (d ∷ ds) m h = split (hex_val d) refl (λ k. hex_value_mono k ds m)
  where
    split : (o : Option ℕ) → hex_val d ≡ o → ((k : ℕ) → hex_value k ds ≡ some m → k ≤ m) → n ≤ m
    split none e ih = ground (arith, e)
    split (some v) e ih = ground (arith, e, ih (n * 16 + v))

abbrev pub at_size : ℕ → Bool → ChunkedParser
at_size n d = record { state = size; chunk_remaining = n; has_digits = d }

pub digit_round :
    (n : ℕ) (b : Bool) (d v : ℕ)
    → hex_val d ≡ some v
    → n ≤ 0x0fff_ffff
    → round size (at_size n b) d ≡ next (at_size (n * 16 + v) true)
unfolding round
digit_round n b d v e h = ground (arith, e, shift_digit_lem n v, hex_val-lt d v)

pub digit_Reads :
    (n : ℕ) (b : Bool) (d v m : ℕ) (ds : List ℕ)
    → hex_val d ≡ some v
    → hex_value (n * 16 + v) ds ≡ some m
    → m < 2 ^ 32
    → Reads (at_size n b) (d ∷ []) [] (at_size (n * 16 + v) true)
digit_Reads n b d v m ds e h w =
    Reads-byte (at_size n b) (at_size (n * 16 + v) true) d
      (digit_round n b d v e (omega (arith, hex_value_mono (n * 16 + v) ds m h)))

pub Reads-digits :
    (n : ℕ) (ds : List ℕ) (m : ℕ)
    → hex_value n ds ≡ some m
    → m < 2 ^ 32
    → Reads (at_size n true) ds [] (at_size m true)
unfolding hex_value
Reads-digits n [] m h w = let e : n ≡ m = cc in rw e (Reads-nil (at_size m true))
Reads-digits n (d ∷ ds) m h w = split (hex_val d) refl (λ k g. Reads-digits k ds m g w)
  where
    split :
        (o : Option ℕ)
        → hex_val d ≡ o
        → ((k : ℕ) → hex_value k ds ≡ some m → Reads (at_size k true) ds [] (at_size m true))
        → Reads (at_size n true) (d ∷ ds) [] (at_size m true)
    split none e ih =
        absurd (let h' : ◌≡◌ {A = Option ℕ} none (some m) = rw (e, hex_value) at h in cc h')
    split (some v) e ih =
        let h' : hex_value (n * 16 + v) ds ≡ some m = rw (e, hex_value) at h in
        Reads-append (at_size n true) (at_size (n * 16 + v) true) (at_size m true) (d ∷ []) ds [] []
          (digit_Reads n true d v m ds e h' w) (ih (n * 16 + v) h')

-- The whole size field, from the start of a chunk.
pub Reads-size :
    (ds : List ℕ) (m : ℕ)
    → hex_value 0 ds ≡ some m
    → m < 2 ^ 32
    → ds ≢ []
    → Reads reset ds [] (at_size m true)
unfolding hex_value reset
Reads-size [] m h w ne = absurd (ne refl)
Reads-size (d ∷ ds) m h w ne = split (hex_val d) refl
  where
    split : (o : Option ℕ) → hex_val d ≡ o → Reads reset (d ∷ ds) [] (at_size m true)
    split none e = absurd (let h' : ◌≡◌ {A = Option ℕ} none (some m) = rw (e, hex_value) at h in cc)
    split (some v) e =
        let h' : hex_value (0 * 16 + v) ds ≡ some m = rw (e, hex_value) at h in
        Reads-append reset (at_size (0 * 16 + v) true) (at_size m true) (d ∷ []) ds [] []
          (digit_Reads 0 false d v m ds e h' w) (Reads-digits (0 * 16 + v) ds m h' w)

abbrev pub parser_at : State → ℕ → ChunkedParser
parser_at s n = record { state = s; chunk_remaining = n; has_digits = true }

-- `\r\n` where the state expects it.
pub Reads-crlf :
    (p q r : ChunkedParser)
    → round p.state p b'\r' ≡ next q
    → round q.state q b'\n' ≡ next r
    → Reads p crlf [] r
Reads-crlf p q r h k =
    Reads-append p q r (b'\r' ∷ []) (b'\n' ∷ []) [] [] (Reads-byte p q b'\r' h)
      (Reads-byte q r b'\n' k)

abbrev pub after_size : ℕ → ChunkedParser
after_size n = parser_at (if n == 0 then trailer else data_bytes) n

pub extension_byte :
    (n c : ℕ) → c ≢ b'\r' → round extension (parser_at extension n) c ≡ next (parser_at extension n)
unfolding round
extension_byte n c h = ground arith

pub extension_loop :
    (n : ℕ) (e : List ℕ)
    → NoCr e
    → All (λ c. round extension (parser_at extension n) c ≡ next (parser_at extension n)) e
extension_loop n [] h = tt
extension_loop n (c ∷ e) h = (extension_byte n c h.0, extension_loop n e h.1)

pub Reads-suffix :
    (n : ℕ) (s : Option (List ℕ))
    → SuffixOk s
    → Reads (at_size n true) (write_suffix s ++ crlf) [] (after_size n)
unfolding round
Reads-suffix n none h = Reads-crlf (at_size n true) (parser_at size_lf n) (after_size n) refl refl
Reads-suffix n (some e) h =
    Reads-append (at_size n true) (parser_at extension n) (after_size n) (b';' ∷ []) (e ++ crlf) []
      [] (Reads-byte (at_size n true) (parser_at extension n) b';' refl)
      (Reads-append (parser_at extension n) (parser_at extension n) (after_size n) e crlf [] []
        (Reads-loop (parser_at extension n) e (extension_loop n e h))
        (Reads-crlf (parser_at extension n) (parser_at size_lf n) (after_size n) refl refl))

pub Reads-size_line :
    (c : Chunk) → WellSized c → Reads reset (size_line c) [] (after_size (length c.bytes))
Reads-size_line c w =
    Reads-append reset (at_size (length c.bytes) true) (after_size (length c.bytes)) c.digits
      (write_suffix c.suffix ++ crlf) [] []
      (Reads-size c.digits (length c.bytes) w.spelled w.word w.some_digit)
      (Reads-suffix (length c.bytes) c.suffix w.clean)
