-- ===== src/Http/Bytes.antt =====
-- The integer helpers of src/runtime/http_parser.cc: loads, `str_ci_eq` and `parse_uint`.
pub mod Compare
pub mod Decimal
use route_lang.Common.{
  ℕ, zero, suc, ◌+◌, ◌-◌, ◌*◌, ◌/◌, ◌%◌, ◌^◌, ◌<◌, bit_or, Bool, true, false, ◌&&◌, Option, none,
  some, List, [], ◌∷◌, ltb, leb, ◌==◌, if◌then◌else◌, length, take, drop,
}

-- `load_u32` and `load_u64`, little-endian, of the 4 or 8 bytes given.
unfoldable pub load : List ℕ → ℕ
load [] = 0
load (b ∷ bs) = b + 256 * load bs

-- `|` with 0x20 in the byte of a letter maps the upper case to the lower.
abbrev pub mask4 : ℕ
mask4 = 0x20202020

abbrev pub mask8 : ℕ
mask8 = 0x2020202020202020

-- The loop over the bytes that are left.
unfoldable pub ci_eq_bytes : List ℕ → List ℕ → ℕ → Bool
ci_eq_bytes a b zero = true
ci_eq_bytes [] b (suc n) = true
ci_eq_bytes (x ∷ a) [] (suc n) = true
ci_eq_bytes (x ∷ a) (y ∷ b) (suc n) = bit_or x 0x20 == bit_or y 0x20 && ci_eq_bytes a b n

ci_eq_tail : List ℕ → List ℕ → ℕ → Bool
unfolding load ci_eq_bytes
ci_eq_tail a b n =
    if leb 4 n
    then bit_or (load (take 4 a)) mask4 == bit_or (load (take 4 b)) mask4
      && ci_eq_bytes (drop 4 a) (drop 4 b) (n - 4)
    else ci_eq_bytes a b n

-- The loop over blocks of eight bytes, on fuel: `n` is `len - i`.
pub ci_eq_blocks : ℕ → List ℕ → List ℕ → ℕ → Bool
unfolding ci_eq_tail
ci_eq_blocks zero a b n = ci_eq_tail a b n
ci_eq_blocks (suc fuel) a b n = elim (leb 8 n) [
  | true ↦
      bit_or (load (take 8 a)) mask8 == bit_or (load (take 8 b)) mask8
      && ci_eq_blocks fuel (drop 8 a) (drop 8 b) (n - 8)
  | false ↦ ci_eq_tail a b n
]

-- `str_ci_eq`; `len / 8` rounds are all that the loop makes.
unfoldable pub str_ci_eq : List ℕ → List ℕ → ℕ → Bool
unfolding ci_eq_blocks
str_ci_eq a b len = ci_eq_blocks (len / 8) a b len

-- The two errors of `parse_uint`.
pub data Uint : Type 0 where
  value : ℕ → Uint
  einval erange : Uint

-- The loop; `p[i] - '0'` is on u32.
pub parse_digits : ℕ → List ℕ → Uint
parse_digits val [] = value val
parse_digits val (c ∷ rest) =
    let d : ℕ = (c + 2 ^ 32 - b'0') % 2 ^ 32 in
    if ltb 9 d
    then einval
    else if ltb ((0xffff_ffff - d) / 10) val
    then erange
    else parse_digits (val * 10 + d) rest

unfoldable pub parse_uint : List ℕ → Uint
unfolding parse_digits
parse_uint p = if length p == 0 then einval else parse_digits 0 p
