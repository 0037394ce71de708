-- ===== src/Trie/Match/Mask.antt =====
-- The mask of literal segments, `static_mask`, as an order on paths of labels.
use route_lang.Common.{
  ℕ, zero, suc, ◌+◌, ◌-◌, ◌*◌, ◌^◌, ◌≤◌, ◌<◌, ◌≡◌, refl, ap, ◌∙◌, Bool, true, false, not, ◌&&◌,
  List, [], ◌∷◌, if◌then◌else◌, length, ltb, bit_or_below, double_pow, arith, inl, inr, Bool-cases,
}
use native.Mathlib.Nat.{mul_assoc, mul_comm}
use route_lang.Tokens.{Str}
use route_lang.Trie.{is_param_segment}
use route_lang.Trie.Match.Rank.{literals, literal_mask}

-- Where two paths first differ in kind, the first has a literal and the second a parameter.
unfoldable pub literal_first : List Str → List Str → Bool
literal_first [] ms = false
literal_first (l ∷ ls) [] = false
literal_first (l ∷ ls) (m ∷ ms) =
    let more = literal_first ls ms in
    if not (is_param_segment l) && is_param_segment m
    then true
    else if is_param_segment l && not (is_param_segment m)
    then false
    else more

-- The bits of a path whose first label stands above bit `k`.
unfoldable pub bits : List Str → ℕ → ℕ
bits [] k = 0
bits (l ∷ ls) zero = 0
bits (l ∷ ls) (suc k) = (if is_param_segment l then 0 else 2 ^ k) + bits ls k

bits-below : (ls : List Str) (k : ℕ) → bits ls k < 2 ^ k
unfolding bits
bits-below [] zero = omega arith
bits-below [] (suc k) = omega (arith, bits-below [] k)
bits-below (l ∷ ls) zero = omega arith
bits-below (l ∷ ls) (suc k) = ground (arith, bits-below ls k)

regroup : (a k : ℕ) → a * 2 ^ suc k ≡ (a * 2) * 2 ^ k
regroup a k =
    omega (arith, double_pow a k, mul_assoc 2 a (2 ^ k), ap (λ b. b * 2 ^ k) (mul_comm 2 a))

successor : (b p : ℕ) → (b + 1) * p ≡ b * p + p
successor b p = omega (arith, mul_comm (b + 1) p, mul_comm b p)

pub literal_mask-bits :
    (ls : List Str) (d k a : ℕ)
    → d + k ≡ 64
    → length ls ≤ suc k
    → literal_mask ls d (a * 2 ^ k) ≡ a * 2 ^ k + bits ls k
unfolding bits
literal_mask-bits [] d k a e few = omega arith
literal_mask-bits (l ∷ m ∷ ls) d zero a e few = absurd (omega arith)
literal_mask-bits (l ∷ []) d zero a e few = ground arith
literal_mask-bits (l ∷ ls) d (suc k) a e few = elim (Bool-cases (is_param_segment l)) [
  | inl param ↦
      let x : a * 2 ^ suc k ≡ (a * 2) * 2 ^ k = regroup a k in
      rw (param, x)
        (literal_mask-bits ls (d + 1) k (a * 2) (omega arith) (omega arith) ∙ omega arith)
  | inr literal ↦
      let under : ltb d 64 ≡ true = ground arith in
      let bit : 63 - d ≡ k = omega arith in
      let x : a * 2 ^ suc k + 2 ^ k ≡ (a * 2 + 1) * 2 ^ k =
        omega (arith, regroup a k, successor (a * 2) (2 ^ k)) in
      rw (literal, under, bit, bit_or_below k a, x)
        (literal_mask-bits ls (d + 1) k (a * 2 + 1) (omega arith) (omega arith) ∙ omega (arith, x))
]

bits-order :
    (ls ms : List Str) (k : ℕ)
    → length ls ≤ suc k
    → length ls ≡ length ms
    → literals ls ≡ literals ms
    → ltb (bits ms k) (bits ls k) ≡ literal_first ls ms
unfolding bits literal_first
bits-order [] [] k few len same = refl
bits-order [] (m ∷ ms) k few len same = absurd (omega arith)
bits-order (l ∷ ls) [] k few len same = absurd (omega arith)
bits-order (l ∷ x ∷ ls) (m ∷ ms) zero few len same = absurd (omega arith)
bits-order (l ∷ []) (m ∷ x ∷ ms) zero few len same = absurd (omega arith)
bits-order (l ∷ []) (m ∷ []) zero few len same = ground (arith, same)
bits-order (l ∷ ls) (m ∷ ms) (suc k) few len same =
    let ih : literals ls ≡ literals ms → ltb (bits ms k) (bits ls k) ≡ literal_first ls ms =
      λ e. bits-order ls ms k (omega arith) (omega arith) e in
    let low : bits ls k < 2 ^ k = bits-below ls k in
    let low' : bits ms k < 2 ^ k = bits-below ms k in
    elim (Bool-cases (is_param_segment l)) [
      | inl p ↦ elim (Bool-cases (is_param_segment m)) [
        | inl q ↦ ground (arith, p, q, ih (ground (arith, same, p, q)))
        | inr q ↦ ground (arith, p, q)
      ]
      | inr p ↦ elim (Bool-cases (is_param_segment m)) [
        | inl q ↦ ground (arith, p, q)
        | inr q ↦ ground (arith, p, q, ih (ground (arith, same, p, q)))
      ]
    ]

-- The mask of a path, as `described` has it, orders paths with as many labels and literals.
pub mask-order :
    (ls ms : List Str)
    → length ls ≤ 64
    → length ls ≡ length ms
    → literals ls ≡ literals ms
    → ltb (literal_mask ms 1 0) (literal_mask ls 1 0) ≡ literal_first ls ms
mask-order ls ms few len same =
    let a : literal_mask ls 1 0 ≡ bits ls 63 = literal_mask-bits ls 1 63 0 refl few ∙ omega arith in
    let b : literal_mask ms 1 0 ≡ bits ms 63 =
      literal_mask-bits ms 1 63 0 refl (omega arith) ∙ omega arith in
    rw (a, b) (bits-order ls ms 63 few len same)
