-- ===== src/Http/Bytes/Decimal.antt =====
-- `parse_uint` reads the decimal numbers below 2 ^ 32.
use route_lang.Common.{
  ℕ, ◌+◌, ◌-◌, ◌*◌, ◌/◌, ◌%◌, ◌^◌, ◌≤◌, ◌<◌, ◌≡◌, ◌≢◌, ◌↔◌, refl, List, [], ◌∷◌, ltb, All, arith,
  if◌then◌else◌, Bool-cases, inl, inr,
}
use route_lang.Http.Bytes.{value, erange, parse_digits, parse_uint}

abbrev pub IsDigits : List ℕ → Type 0
IsDigits = All (λ c. (b'0' ≤ c) × (c ≤ b'9'))

-- The number that decimal digits spell, after digits of value `n`.
unfoldable pub decimal : ℕ → List ℕ → ℕ
decimal n [] = n
decimal n (c ∷ cs) = decimal (n * 10 + (c - b'0')) cs

le-decimal : (n : ℕ) (ds : List ℕ) → n ≤ decimal n ds
unfolding decimal
le-decimal n [] = omega arith
le-decimal n (c ∷ ds) = omega (arith, le-decimal (n * 10 + (c - b'0')) ds)

parse_digits-decimal :
    (ds : List ℕ) (n : ℕ)
    → IsDigits ds
    → n < 2 ^ 32
    → parse_digits n ds ≡ (if ltb (decimal n ds) (2 ^ 32) then value (decimal n ds) else erange)
unfolding parse_digits decimal
parse_digits-decimal [] n h lt = ground arith
parse_digits-decimal (c ∷ ds) n h lt = elim (Bool-cases (ltb ((0xffff_ffff - digit) / 10) n)) [
  | inl over ↦ ground (arith, digit_lem, le-decimal (n * 10 + (c - b'0')) ds)
  | inr fits ↦ ground (arith, digit_lem, parse_digits-decimal ds (n * 10 + (c - b'0')) h.1)
]
  where
    digit : ℕ
    digit = (c + 2 ^ 32 - b'0') % 2 ^ 32

    digit_lem : digit ≡ c - b'0'
    digit_lem = omega (arith, h.0)

parse_digits-IsDigits :
    (ds : List ℕ) (n m : ℕ) → All (λ c. c < 256) ds → parse_digits n ds ≡ value m → IsDigits ds
unfolding parse_digits
parse_digits-IsDigits [] n m b e = tt
parse_digits-IsDigits (c ∷ ds) n m b e = elim (Bool-cases (ltb 9 digit)) [
  | inl other ↦ absurd (ground arith)
  | inr small ↦ elim (Bool-cases (ltb ((0xffff_ffff - digit) / 10) n)) [
    | inl over ↦ absurd (ground arith)
    | inr fits ↦
        let le : digit ≤ 9 = ground arith in
        (
          (omega (arith, b.0), omega (arith, b.0)),
          parse_digits-IsDigits ds (n * 10 + digit) m b.1 (ground arith),
        )
  ]
]
  where
    digit : ℕ
    digit = (c + 2 ^ 32 - b'0') % 2 ^ 32

-- `parse_uint` returns a number exactly for one or more digits that spell it, if it is below 2 ^ 32;
-- leading zeros are allowed.
pub parse_uint-value :
    (p : List ℕ) (n : ℕ)
    → All (λ c. c < 256) p
    → (parse_uint p ≡ value n) ↔ ((p ≢ []) × IsDigits p × (decimal 0 p ≡ n) × (n < 2 ^ 32))
unfolding parse_uint
parse_uint-value [] n b = (λ e. absurd (ground arith), λ h. absurd (h.0 refl))
parse_uint-value (c ∷ p) n b = (there, back)
  where
    there :
        parse_uint (c ∷ p) ≡ value n
        → ((c ∷ p) ≢ []) × IsDigits (c ∷ p) × (decimal 0 (c ∷ p) ≡ n) × (n < 2 ^ 32)
    there e =
        let q : parse_digits 0 (c ∷ p) ≡ value n = ground arith in
        let d : IsDigits (c ∷ p) = parse_digits-IsDigits (c ∷ p) 0 n b q in
        let k : parse_digits 0 (c ∷ p)
            ≡ (if ltb (decimal 0 (c ∷ p)) (2 ^ 32) then value (decimal 0 (c ∷ p)) else erange) =
          parse_digits-decimal (c ∷ p) 0 d (omega arith) in
        (λ x. cc, d, ground (arith, q, k), ground (arith, q, k))

    back :
        ((c ∷ p) ≢ []) × IsDigits (c ∷ p) × (decimal 0 (c ∷ p) ≡ n) × (n < 2 ^ 32)
        → parse_uint (c ∷ p) ≡ value n
    back h = ground (arith, h, parse_digits-decimal (c ∷ p) 0 h.1 (omega arith))
