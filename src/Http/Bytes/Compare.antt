-- ===== src/Http/Bytes/Compare.antt =====
-- `str_ci_eq` compares byte by byte.
use route_lang.Common.{
  ℕ, zero, suc, ◌+◌, ◌-◌, ◌*◌, ◌/◌, ◌≤◌, ◌<◌, ◌≡◌, refl, ap, sym, ◌∙◌, bit_or, ◌&&◌, List, [], ◌∷◌,
  leb, ◌==◌, length, take, drop, All, Bool-cases, inl, inr, arith, Apart-byte, bit_or_byte,
  length-drop,
}
use route_lang.Http.Bytes.{load, ci_eq_bytes, ci_eq_tail, ci_eq_blocks, str_ci_eq}

abbrev pub IsBytes : List ℕ → Type 0
IsBytes = All (λ c. c < 256)

pub IsBytes-drop : (k : ℕ) (a : List ℕ) → IsBytes a → IsBytes (drop k a)
IsBytes-drop zero a h = h
IsBytes-drop (suc k) [] h = tt
IsBytes-drop (suc k) (x ∷ a) h = IsBytes-drop k a h.1

-- A word of `k` bytes 0x20.
abbrev mask : ℕ → ℕ
mask zero = 0
mask (suc k) = 0x20 + 256 * mask k

or_word :
    (x : ℕ) (a : List ℕ) (k : ℕ)
    → x < 256
    → bit_or (load (x ∷ a)) (mask (suc k)) ≡ bit_or x 0x20 + 256 * bit_or (load a) (mask k)
unfolding load
or_word x a k h =
    Apart-byte (load (x ∷ a)) (mask (suc k)) x 0x20 (load a) (mask k) refl refl h (omega arith)

-- Masked words are equal exactly if the masked bytes are.
words_lem :
    (k : ℕ) (a b : List ℕ)
    → k ≤ length a
    → k ≤ length b
    → IsBytes a
    → IsBytes b
    → (bit_or (load (take k a)) (mask k) == bit_or (load (take k b)) (mask k)) ≡ ci_eq_bytes a b k
unfolding load ci_eq_bytes
words_lem zero a b h j u v = refl
words_lem (suc k) [] b h j u v = absurd (omega arith)
words_lem (suc k) (x ∷ a) [] h j u v = absurd (omega arith)
words_lem (suc k) (x ∷ a) (y ∷ b) h j u v = ground (
  arith,
  or_word x (take k a) k,
  or_word y (take k b) k,
  bit_or_byte x,
  bit_or_byte y,
  words_lem k a b,
)

ci_eq_bytes-add :
    (k n : ℕ) (a b : List ℕ)
    → k ≤ length a
    → k ≤ length b
    → ci_eq_bytes a b (k + n) ≡ (ci_eq_bytes a b k && ci_eq_bytes (drop k a) (drop k b) n)
unfolding ci_eq_bytes
ci_eq_bytes-add zero n a b h j = ap (ci_eq_bytes a b) (omega arith)
ci_eq_bytes-add (suc k) n [] b h j = absurd (omega arith)
ci_eq_bytes-add (suc k) n (x ∷ a) [] h j = absurd (omega arith)
ci_eq_bytes-add (suc k) n (x ∷ a) (y ∷ b) h j =
    let e : suc k + n ≡ suc (k + n) = omega arith in rw e (ground (arith, ci_eq_bytes-add k n a b))

-- A word of `k` bytes, then the rest.
block_lem :
    (k n : ℕ) (a b : List ℕ)
    → k ≤ n
    → n ≤ length a
    → n ≤ length b
    → IsBytes a
    → IsBytes b
    → ((bit_or (load (take k a)) (mask k) == bit_or (load (take k b)) (mask k))
        && ci_eq_bytes (drop k a) (drop k b) (n - k))
      ≡ ci_eq_bytes a b n
block_lem k n a b q h j u v = rw (words_lem k a b (omega arith) (omega arith) u v) (
    sym (ci_eq_bytes-add k (n - k) a b (omega arith) (omega arith))
    ∙ ap (ci_eq_bytes a b) (omega arith))

ci_eq_tail_lem :
    (n : ℕ) (a b : List ℕ)
    → n ≤ length a
    → n ≤ length b
    → IsBytes a
    → IsBytes b
    → ci_eq_tail a b n ≡ ci_eq_bytes a b n
unfolding ci_eq_tail
ci_eq_tail_lem n a b h j u v = elim (Bool-cases (leb 4 n)) [
  | inl more ↦ rw more (block_lem 4 n a b (ground arith) h j u v)
  | inr less ↦ rw less
]

ci_eq_blocks_lem :
    (fuel n : ℕ) (a b : List ℕ)
    → n ≤ length a
    → n ≤ length b
    → IsBytes a
    → IsBytes b
    → ci_eq_blocks fuel a b n ≡ ci_eq_bytes a b n
unfolding ci_eq_blocks
ci_eq_blocks_lem zero n a b h j u v = ci_eq_tail_lem n a b h j u v
ci_eq_blocks_lem (suc fuel) n a b h j u v = elim (Bool-cases (leb 8 n)) [
  | inl more ↦
      let le : 8 ≤ n = ground arith in
      ground (
        arith,
        more,
        ci_eq_blocks_lem fuel (n - 8) (drop 8 a) (drop 8 b) (omega (arith, length-drop 8 a))
            (omega (arith, length-drop 8 b)) (IsBytes-drop 8 a u) (IsBytes-drop 8 b v),
        block_lem 8 n a b le h j u v,
      )
  | inr less ↦ ground (arith, less, ci_eq_tail_lem n a b h j u v)
]

-- `str_ci_eq`, by words of eight and four bytes, is the comparison of the masked bytes.
pub str_ci_eq-bytes :
    (a b : List ℕ) (len : ℕ)
    → len ≤ length a
    → len ≤ length b
    → IsBytes a
    → IsBytes b
    → str_ci_eq a b len ≡ ci_eq_bytes a b len
unfolding str_ci_eq
str_ci_eq-bytes a b len h j u v = ci_eq_blocks_lem (len / 8) len a b h j u v
