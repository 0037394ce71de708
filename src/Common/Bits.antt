-- ===== src/Common/Bits.antt =====
-- `|` on numbers whose binary digits do not overlap is a sum.
use Prim.Native.Nat.{
  ℕ, zero, suc, ◌+◌, ◌*◌, ◌/◌, ◌%◌, ◌^◌, ◌≤◌, ◌<◌, max, bit_or, digits, bit_or-bitwise,
}
use mathlib.Core.Path.{◌≡◌, refl, ap, ◌∙◌}
use mathlib.Core.Bool.{Bool, true, ◌&&◌}
use native.Mathlib.Omega.{arith}
use native.Mathlib.Nat.{mul_assoc}
use route_lang.Common.Tests.{ltb, ltb→lt}

abbrev or_digits : ℕ → ℕ → ℕ → ℕ
or_digits n a b = digits (λ b. b) max n a b

or_digits_fuel : (n m a b : ℕ) → a ≤ n → a ≤ m → or_digits n a b ≡ or_digits m a b
or_digits_fuel zero zero a b p q = refl
or_digits_fuel zero (suc m) zero b p q = refl
or_digits_fuel zero (suc m) (suc a) b p q = absurd (omega arith)
or_digits_fuel (suc n) zero zero b p q = refl
or_digits_fuel (suc n) zero (suc a) b p q = absurd (omega arith)
or_digits_fuel (suc n) (suc m) zero b p q = refl
or_digits_fuel (suc n) (suc m) (suc a) b p q =
    omega (arith, or_digits_fuel n m (suc a / 2) (b / 2) (omega arith) (omega arith))

zero-bit_or : (b : ℕ) → bit_or 0 b ≡ b
zero-bit_or b = bit_or-bitwise 0 b

pub bit_or_step : (a b : ℕ) → bit_or a b ≡ bit_or (a / 2) (b / 2) * 2 + max (a % 2) (b % 2)
bit_or_step zero b = omega (arith, zero-bit_or b, zero-bit_or (b / 2))
bit_or_step (suc a) b = omega (
  arith,
  bit_or-bitwise (suc a) b,
  bit_or-bitwise (suc a / 2) (b / 2),
  or_digits_fuel a (suc a / 2) (suc a / 2) (b / 2) (omega arith) (omega arith),
)

bit_or-zero_fuel : (n a : ℕ) → a ≤ n → bit_or a 0 ≡ a
bit_or-zero_fuel n zero h = refl
bit_or-zero_fuel zero (suc a) h = absurd (omega arith)
bit_or-zero_fuel (suc n) (suc a) h =
    omega (arith, bit_or_step (suc a) 0, bit_or-zero_fuel n (suc a / 2) (omega arith))

pub bit_or-zero : (a : ℕ) → bit_or a 0 ≡ a
bit_or-zero a = bit_or-zero_fuel a a (omega arith)

double_bit_or : (x p : ℕ) → bit_or (2 * x) (2 * p) ≡ 2 * bit_or x p
double_bit_or x p =
    let a : 2 * x / 2 ≡ x = omega arith in
    let b : 2 * p / 2 ≡ p = omega arith in
    omega (arith, bit_or_step (2 * x) (2 * p), ap (λ y. bit_or y (2 * p / 2)) a, ap (bit_or x) b)

pub double_pow : (a k : ℕ) → a * 2 ^ suc k ≡ 2 * (a * 2 ^ k)
double_pow a k =
    let p : 2 ^ suc k ≡ 2 ^ k * 2 = omega arith in
    ap (λ y. a * y) p ∙ omega (arith, mul_assoc a (2 ^ k) 2)

-- A bit that is set below the others is added to them.
pub bit_or_below : (k a : ℕ) → bit_or (a * 2 ^ suc k) (2 ^ k) ≡ a * 2 ^ suc k + 2 ^ k
bit_or_below zero a =
    let half : a * 2 / 2 ≡ a = omega arith in
    omega (arith, bit_or_step (a * 2) 1, ap (λ y. bit_or y 0) half, bit_or-zero a)
bit_or_below (suc k) a =
    let x : a * 2 ^ suc (suc k) ≡ 2 * (a * 2 ^ suc k) = double_pow a (suc k) in
    let p : 2 ^ suc k ≡ 2 * 2 ^ k = omega arith in
    ap (λ y. bit_or y (2 ^ suc k)) x
    ∙ ap (bit_or (2 * (a * 2 ^ suc k))) p
    ∙ double_bit_or (a * 2 ^ suc k) (2 ^ k)
    ∙ omega (arith, bit_or_below k a, x, p)

-- `(r << 4) | v` for a hexadecimal digit `v`.
pub bit_or_nibble : (r v : ℕ) → v < 16 → bit_or (r * 16) v ≡ r * 16 + v
bit_or_nibble r v h = omega (
  arith,
  bit_or_step (r * 16) v,
  bit_or_step (r * 16 / 2) (v / 2),
  bit_or_step (r * 16 / 2 / 2) (v / 2 / 2),
  bit_or_step (r * 16 / 2 / 2 / 2) (v / 2 / 2 / 2),
  halves,
)
  where
    shifted : r * 16 / 2 / 2 / 2 / 2 ≡ r
    shifted = omega arith

    small : v / 2 / 2 / 2 / 2 ≡ 0
    small = omega arith

    halves : bit_or (r * 16 / 2 / 2 / 2 / 2) (v / 2 / 2 / 2 / 2) ≡ r
    halves = rw (shifted, small) (bit_or-zero r)

-- The low digits of a number, `X ≡ x + c * r` with `x < c`, and the others combine apart.
abbrev Apart : ℕ → Type 0
Apart c =
    (X Y x y r m : ℕ)
    → X ≡ x + c * r
    → Y ≡ y + c * m
    → x < c
    → y < c
    → bit_or X Y ≡ bit_or x y + c * bit_or r m

Apart-bit : Apart 2
Apart-bit X Y x y r m e f h k =
    omega (arith, bit_or_step X Y, bit_or_step x y, high, bit_or-zero 0, low)
  where
    X_half : X / 2 ≡ r
    X_half = omega arith

    Y_half : Y / 2 ≡ m
    Y_half = omega arith

    x_half : x / 2 ≡ 0
    x_half = omega arith

    y_half : y / 2 ≡ 0
    y_half = omega arith

    high : bit_or (X / 2) (Y / 2) ≡ bit_or r m
    high = rw (X_half, Y_half)

    low : bit_or (x / 2) (y / 2) ≡ 0
    low = rw (x_half, y_half) (bit_or-zero 0)

Apart-pair : Apart 4
Apart-pair X Y x y r m e f h k = omega (
  arith,
  Apart-bit X Y (x % 2) (y % 2) (x / 2 + 2 * r) (y / 2 + 2 * m) (omega arith) (omega arith),
  Apart-bit (x / 2 + 2 * r) (y / 2 + 2 * m) (x / 2) (y / 2) r m,
  Apart-bit x y (x % 2) (y % 2) (x / 2) (y / 2) (omega arith) (omega arith),
)

Apart-nibble : Apart 16
Apart-nibble X Y x y r m e f h k = omega (
  arith,
  Apart-pair X Y (x % 4) (y % 4) (x / 4 + 4 * r) (y / 4 + 4 * m) (omega arith) (omega arith),
  Apart-pair (x / 4 + 4 * r) (y / 4 + 4 * m) (x / 4) (y / 4) r m,
  Apart-pair x y (x % 4) (y % 4) (x / 4) (y / 4) (omega arith) (omega arith),
)

-- Bytes of two words combine each for itself.
pub Apart-byte : Apart 256
Apart-byte X Y x y r m e f h k = omega (
  arith,
  Apart-nibble X Y (x % 16) (y % 16) (x / 16 + 16 * r) (y / 16 + 16 * m) (omega arith)
      (omega arith),
  Apart-nibble (x / 16 + 16 * r) (y / 16 + 16 * m) (x / 16) (y / 16) r m,
  Apart-nibble x y (x % 16) (y % 16) (x / 16) (y / 16) (omega arith) (omega arith),
)

-- A test that every number under the limit passes, by running it on each.
unfoldable pub every_below : (ℕ → Bool) → ℕ → Bool
every_below test zero = true
every_below test (suc limit) = every_below test limit && test limit

pub every_below_lem :
    (test : ℕ → Bool) (limit : ℕ)
    → every_below test limit ≡ true
    → (c : ℕ) → c < limit
    → test c ≡ true
unfolding every_below
every_below_lem test zero e c under = absurd (omega arith)
every_below_lem test (suc limit) e c under =
    ground (arith, every_below_lem test limit (ground arith) c)

masked_fits : every_below (λ c. ltb (bit_or c 0x20) 256) 256 ≡ true
unfolding every_below
masked_fits = refl

pub bit_or_byte : (c : ℕ) → c < 256 → bit_or c 0x20 < 256
bit_or_byte c under =
    ltb→lt (bit_or c 0x20) 256
      (every_below_lem (λ k. ltb (bit_or k 0x20) 256) 256 masked_fits c under)
