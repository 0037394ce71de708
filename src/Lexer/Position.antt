-- ===== src/Lexer/Position.antt =====
-- Lines and columns, counted from the text alone.
use route_lang.Common.{
  ℕ, zero, suc, ◌+◌, ◌≤◌, ◌<◌, ◌≡◌, ◌==◌, ◌&&◌, not, refl, ap, sym, ◌∙◌, Bool, true, false, [], ◌∷◌,
  ◌++◌, length, drop, take, All, arith, inl, inr, Bool-cases, if◌then◌else◌,
}
use route_lang.Tokens.{Str}
use route_lang.Lexer.{run, Quoted, closed, unterminated, passed, scan_quoted}

-- The line and the column behind a text, from those in front of it: a newline starts a line.
unfoldable pub walk : Str → ℕ × ℕ → ℕ × ℕ
walk [] p = p
walk (c ∷ s) (line, col) = if c == b'\n' then walk s (line + 1, 1) else walk s (line, col + 1)

-- No newline stands behind a backslash.
unfoldable pub no_escaped_newline : Str → Bool
no_escaped_newline [] = true
no_escaped_newline (c ∷ []) = true
no_escaped_newline (c ∷ d ∷ s) =
    let more = no_escaped_newline (d ∷ s) in not (c == b'\\' && d == b'\n') && more

abbrev pub OneLine : Str → Type 0
OneLine = All (λ c. (c == b'\n') ≡ false)

pub walk-append : (a b : Str) (p : ℕ × ℕ) → walk (a ++ b) p ≡ walk b (walk a p)
unfolding walk
walk-append [] b p = refl
walk-append (c ∷ a) b (line, col) = elim (Bool-cases (c == b'\n')) [
  | inl newline ↦ rw newline (walk-append a b (line + 1, 1))
  | inr other ↦ rw other (walk-append a b (line, col + 1))
]

pub walk-OneLine :
    (s : Str) (line col : ℕ) → OneLine s → walk s (line, col) ≡ (line, col + length s)
unfolding walk
walk-OneLine [] line col h = ap (λ k. (line, k)) (omega arith)
walk-OneLine (c ∷ s) line col h =
    rw h.0 (walk-OneLine s line (col + 1) h.1 ∙ ap (λ k. (line, k)) (omega arith))

take-nothing : (k : ℕ) → take {A = ℕ} k [] ≡ []
take-nothing zero = refl
take-nothing (suc k) = refl

pub take-add : (n m : ℕ) (s : Str) → take (n + m) s ≡ take n s ++ take m (drop n s)
take-add zero m s = ap (λ k. take k s) (omega arith)
take-add (suc n) m [] = let e : suc n + m ≡ suc (n + m) = omega arith in rw e (sym (take-nothing m))
take-add (suc n) m (c ∷ s) =
    let e : suc n + m ≡ suc (n + m) = omega arith in rw e (ap (◌∷◌ c) (take-add n m s))

pub OneLine-append : (a b : Str) → OneLine a → OneLine b → OneLine (a ++ b)
OneLine-append [] b h k = k
OneLine-append (c ∷ a) b h k = (h.0, OneLine-append a b h.1 k)

-- What an inner loop passes.
module _ (test : ℕ → Bool) where
  pub run_le : (s : Str) → run test s ≤ length s
  unfolding run
  run_le [] = omega arith
  run_le (c ∷ s) = ground (arith, run_le s)

  pub run-OneLine :
      ((c : ℕ) → test c ≡ true → (c == b'\n') ≡ false) → (s : Str) → OneLine (take (run test s) s)
  unfolding run
  run-OneLine h [] = tt
  run-OneLine h (c ∷ s) = elim (Bool-cases (test c)) [
    | inl more ↦ rw more (h c more, run-OneLine h s)
    | inr stop ↦ rw stop tt
  ]

pub no_escaped_newline-drop :
    (n : ℕ) (s : Str) → no_escaped_newline s ≡ true → no_escaped_newline (drop n s) ≡ true
unfolding no_escaped_newline
no_escaped_newline-drop zero s h = h
no_escaped_newline-drop (suc n) [] h = refl
no_escaped_newline-drop (suc n) (c ∷ []) h = no_escaped_newline-drop n [] refl
no_escaped_newline-drop (suc n) (c ∷ d ∷ s) h = no_escaped_newline-drop n (d ∷ s) (ground arith)

-- A quote was found behind `n` bytes, none of them a newline.
abbrev Closes : Str → ℕ → Type 0
Closes s n = (n < length s) × (no_escaped_newline s ≡ true → OneLine (take (suc n) s))

passed-closed :
    (k n : ℕ) (q : Quoted) → passed k q ≡ closed n → (m : ℕ) × (q ≡ closed m) × (n ≡ k + m)
passed-closed k n (closed m) e = (m, refl, ground (arith, e))
passed-closed k n (unterminated m) e = absurd (ground (arith, e))

pub scan_quoted-Closes : (s : Str) (n : ℕ) → scan_quoted s ≡ closed n → Closes s n
unfolding scan_quoted
scan_quoted-Closes [] n e = absurd (ground (arith, e))
scan_quoted-Closes (c ∷ []) n e = elim (Bool-cases (c == b'"')) [
  | inl quote ↦
      let z : n ≡ 0 = ground (arith, e, quote) in
      rw z (omega arith, λ h. (ground (arith, quote), tt))
  | inr other ↦ absurd (ground (arith, e, other))
]
scan_quoted-Closes (c ∷ d ∷ s) n e = elim (Bool-cases (c == b'"')) [
  | inl quote ↦
      let z : n ≡ 0 = ground (arith, e, quote) in
      rw z (omega arith, λ h. (ground (arith, quote), tt))
  | inr no_quote ↦ elim (Bool-cases (c == b'\\')) [
    | inl escape ↦
        let r : (m : ℕ) × (scan_quoted s ≡ closed m) × (n ≡ 2 + m) =
          passed-closed 2 n (scan_quoted s) (rw (no_quote, escape) at e) in
        let ih : Closes s r.0 = scan_quoted-Closes s r.0 r.1 in
        let z : n ≡ suc (suc r.0) = omega (arith, r.2) in
        rw z (
          omega (arith, ih),
          λ h. (
            unfold no_escaped_newline in ground (arith, escape),
            (
              unfold no_escaped_newline in ground (arith, escape, h),
              ih.1 (no_escaped_newline-drop 2 (c ∷ d ∷ s) h),
            ),
          ),
        )
    | inr no_escape ↦ elim (Bool-cases (c == b'\n')) [
      | inl newline ↦ absurd (ground (arith, e, no_quote, no_escape, newline))
      | inr other ↦
          let r : (m : ℕ) × (scan_quoted (d ∷ s) ≡ closed m) × (n ≡ 1 + m) =
            passed-closed 1 n (scan_quoted (d ∷ s)) (rw (no_quote, no_escape, other) at e) in
          let ih : Closes (d ∷ s) r.0 = scan_quoted-Closes (d ∷ s) r.0 r.1 in
          let z : n ≡ suc r.0 = omega (arith, r.2) in
          rw z (omega (arith, ih), λ h. (other, ih.1 (no_escaped_newline-drop 1 (c ∷ d ∷ s) h)))
    ]
  ]
]
