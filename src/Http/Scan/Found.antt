-- ===== src/Http/Scan/Found.antt =====
-- What the scanners find.
use route_lang.Common.{
  ℕ, ◌≡◌, ◌==◌, refl, ap, subst, Bool, true, false, List, [], ◌∷◌, ◌++◌, drop, All, arith, inl, inr,
  Bool-cases,
}
use route_lang.Tokens.{Str}
use route_lang.Http.Tables.{token_table, header_value_table, uri_table}
use route_lang.Http.Scan.{
  Scan, found, invalid, ran_out, after_byte, scan_header_name, scan_header_value,
}

abbrev pub IsToken : Str → Type 0
IsToken = All (λ c. token_table c ≡ true)

abbrev pub IsValue : Str → Type 0
IsValue = All (λ c. header_value_table c ≡ true)

abbrev pub IsUri : Str → Type 0
IsUri = All (λ c. uri_table c ≡ true)

colon-token : token_table b':' ≡ false
unfolding token_table
colon-token = refl

cr-value : header_value_table b'\r' ≡ false
unfolding header_value_table
cr-value = refl

pub space-uri : uri_table b' ' ≡ false
unfolding uri_table
space-uri = refl

-- A byte that a table accepts is not one that it refuses.
pub differs : (table : ℕ → Bool) (c d : ℕ) → table c ≡ true → table d ≡ false → (c == d) ≡ false
differs table c d h k = elim (Bool-cases (c == d)) [
  | inl same ↦ let e : c ≡ d = ground arith in absurd (cc (ap table e))
  | inr other ↦ other
]

pub scan_header_name-found :
    (name : Str) (rest : List ℕ)
    → IsToken name
    → scan_header_name (name ++ (b':' ∷ rest)) ≡ found name (b':' ∷ rest)
unfolding scan_header_name
scan_header_name-found [] rest h = refl
scan_header_name-found (c ∷ name) rest h =
    rw (differs token_table c b':' h.0 colon-token, h.0)
      (ap (after_byte c) (scan_header_name-found name rest h.1))

pub scan_header_value-found :
    (v : Str) (rest : List ℕ)
    → IsValue v
    → scan_header_value (v ++ (b'\r' ∷ rest)) ≡ found v (b'\r' ∷ rest)
unfolding scan_header_value
scan_header_value-found [] rest h = refl
scan_header_value-found (c ∷ v) rest h =
    rw (differs header_value_table c b'\r' h.0 cr-value, h.0)
      (ap (after_byte c) (scan_header_value-found v rest h.1))

-- What a scan that stops at the byte `d` has passed.
abbrev pub Passed : (ℕ → Bool) → ℕ → List ℕ → Str → List ℕ → Type 0
Passed table d p before from =
    (p ≡ before ++ from) × All (λ c. table c ≡ true) before × (from ≡ d ∷ drop 1 from)

after_byte-found :
    (c : ℕ) (s : Scan) (before : Str) (from : List ℕ)
    → after_byte c s ≡ found before from
    → (b : Str) × (s ≡ found b from) × (before ≡ c ∷ b)
after_byte-found c (found b r) before from e = (b, ground (arith, e), ground (arith, e))
after_byte-found c invalid before from e = absurd (ground (arith, e))
after_byte-found c ran_out before from e = absurd (ground (arith, e))

pub scan_header_name-Passed :
    (p : List ℕ) (name : Str) (from : List ℕ)
    → scan_header_name p ≡ found name from
    → Passed token_table b':' p name from
unfolding scan_header_name
scan_header_name-Passed [] name from e = absurd (ground arith)
scan_header_name-Passed (c ∷ p) name from e = elim (Bool-cases (c == b':')) [
  | inl colon ↦
      let n : [] ≡ name = ground arith in
      let f : c ∷ p ≡ from = ground arith in
      subst (λ x. Passed token_table b':' (c ∷ p) x from) n
        (subst (Passed token_table b':' (c ∷ p) []) f (refl, tt, ground arith))
  | inr other ↦ elim (Bool-cases (token_table c)) [
    | inr bad ↦ absurd (ground arith)
    | inl good ↦
        let r : (b : Str) × (scan_header_name p ≡ found b from) × (name ≡ c ∷ b) =
          after_byte-found c (scan_header_name p) name from (ground arith) in
        let q : Passed token_table b':' p r.0 from = scan_header_name-Passed p r.0 from r.1 in
        rw r.2 (ap (◌∷◌ c) q.0, (good, q.1), q.2)
  ]
]

pub scan_header_value-Passed :
    (p : List ℕ) (v : Str) (from : List ℕ)
    → scan_header_value p ≡ found v from
    → Passed header_value_table b'\r' p v from
unfolding scan_header_value
scan_header_value-Passed [] v from e = absurd (ground arith)
scan_header_value-Passed (c ∷ p) v from e = elim (Bool-cases (c == b'\r')) [
  | inl cr ↦
      let n : [] ≡ v = ground arith in
      let f : c ∷ p ≡ from = ground arith in
      subst (λ x. Passed header_value_table b'\r' (c ∷ p) x from) n
        (subst (Passed header_value_table b'\r' (c ∷ p) []) f (refl, tt, ground arith))
  | inr other ↦ elim (Bool-cases (header_value_table c)) [
    | inr bad ↦ absurd (ground arith)
    | inl good ↦
        let r : (b : Str) × (scan_header_value p ≡ found b from) × (v ≡ c ∷ b) =
          after_byte-found c (scan_header_value p) v from (ground arith) in
        let q : Passed header_value_table b'\r' p r.0 from =
          scan_header_value-Passed p r.0 from r.1 in
        rw r.2 (ap (◌∷◌ c) q.0, (good, q.1), q.2)
  ]
]
