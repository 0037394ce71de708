-- ===== src/Http/Block/Space.antt =====
-- The spaces and tabs round the value of a header.
use route_lang.Common.{
  get_or-append_right, take-append_all, ℕ, zero, suc, ◌+◌, ◌-◌, ◌≤◌, ◌<◌, ◌≡◌, ◌⊎◌, ◌==◌, ltb, leb,
  ◌&&◌, refl, ap, sym, ◌∙◌, true, false, List, [], ◌∷◌, ◌++◌, length, take, get_or, All, arith, inl,
  inr, Bool-cases, take-suc, get_or-take, take-length, length-take, length-append,
  get_or-append_left,
}
use mathlib.Core.List.{append_assoc, append-nil}
use route_lang.Tokens.{Str}
use route_lang.Http.Block.{is_ows, skip_ows, skip_value_ows, trim_ows, trimmed}

abbrev pub AllOws : List ℕ → Type 0
AllOws = All (λ c. is_ows c ≡ true)

-- The first byte, if there is one, is no space or tab.
abbrev pub StartsBare : List ℕ → Type 0
StartsBare p = is_ows (get_or p 0 0) ≡ false

abbrev pub EndsBare : Str → Type 0
EndsBare v = is_ows (get_or v (length v - 1) 0) ≡ false

skip_ows-append : (o p : List ℕ) → AllOws o → StartsBare p → skip_ows (o ++ p) ≡ p
unfolding skip_ows
skip_ows-append [] [] h b = refl
skip_ows-append [] (c ∷ p) h b = rw b
skip_ows-append (c ∷ o) p h b = rw h.0 (skip_ows-append o p h.1 b)

skip_value_ows-skip_ows : (p : List ℕ) → skip_value_ows p ≡ skip_ows p
unfolding skip_value_ows skip_ows
skip_value_ows-skip_ows [] = refl
skip_value_ows-skip_ows (c ∷ p) = ground arith

pub skip_value_ows-append : (o p : List ℕ) → AllOws o → StartsBare p → skip_value_ows (o ++ p) ≡ p
skip_value_ows-append o p h b = skip_value_ows-skip_ows (o ++ p) ∙ skip_ows-append o p h b

skip_ows_split :
    (p : List ℕ) → (o : List ℕ) × (p ≡ o ++ skip_ows p) × AllOws o × StartsBare (skip_ows p)
unfolding skip_ows
skip_ows_split [] = ([], refl, tt, refl)
skip_ows_split (c ∷ p) = elim (Bool-cases (is_ows c)) [
  | inl space ↦
      let r : (o : List ℕ) × (p ≡ o ++ skip_ows p) × AllOws o × StartsBare (skip_ows p) =
        skip_ows_split p in
      rw space (c ∷ r.0, ap (◌∷◌ c) r.1, (space, r.2), r.3)
  | inr other ↦ rw other ([], refl, tt, other)
]

pub skip_value_ows_split :
    (p : List ℕ)
    → (o : List ℕ) × (p ≡ o ++ skip_value_ows p) × AllOws o × StartsBare (skip_value_ows p)
skip_value_ows_split p = rw (skip_value_ows-skip_ows p) (skip_ows_split p)

AllOws-snoc : (o : List ℕ) (c : ℕ) → AllOws o → is_ows c ≡ true → AllOws (o ++ (c ∷ []))
AllOws-snoc [] c h k = (k, tt)
AllOws-snoc (d ∷ o) c h k = (h.0, AllOws-snoc o c h.1 k)

-- The bytes behind the place that is found are spaces and tabs, and the one before it is not.
trim_ows_split :
    (v : Str) (n : ℕ)
    → n ≤ length v
    → ((o : Str) × (take n v ≡ take (trim_ows v n) v ++ o) × AllOws o)
      × (trim_ows v n ≤ n)
      × ((trim_ows v n ≡ 0) ⊎ (is_ows (get_or v (trim_ows v n - 1) 0) ≡ false))
unfolding trim_ows
trim_ows_split v zero h = (([], refl, tt), omega arith, inl refl)
trim_ows_split v (suc n) h = elim (Bool-cases (is_ows (get_or v n 0))) [
  | inr other ↦
      let last : is_ows (get_or v (suc n - 1) 0) ≡ false =
        ap (λ i. is_ows (get_or v i 0)) (omega arith) ∙ other in
      rw other (([], sym (append-nil (take (suc n) v)), tt), omega arith, inr last)
  | inl space ↦
      let r : ((o : Str) × (take n v ≡ take (trim_ows v n) v ++ o) × AllOws o)
          × (trim_ows v n ≤ n)
          × ((trim_ows v n ≡ 0) ⊎ (is_ows (get_or v (trim_ows v n - 1) 0) ≡ false)) =
        trim_ows_split v n (omega arith) in
      let all : take (suc n) v ≡ take (trim_ows v n) v ++ (r.0.0 ++ (get_or v n 0 ∷ [])) =
        take-suc v n 0 (omega arith)
        ∙ ap (λ t. t ++ (get_or v n 0 ∷ [])) r.0.1
        ∙ append_assoc (take (trim_ows v n) v) r.0.0 (get_or v n 0 ∷ []) in
      rw space (
        (r.0.0 ++ (get_or v n 0 ∷ []), all, AllOws-snoc r.0.0 (get_or v n 0) r.0.2 space),
        omega arith,
        r.2,
      )
]

trim_ows-EndsBare : (v : Str) → EndsBare (take (trim_ows v (length v)) v)
trim_ows-EndsBare v = elim (Bool-cases (m == 0)) [
  | inl nothing ↦ (let e : m ≡ 0 = ground arith in rw e refl)
  | inr some_left ↦ rw (size, get_or-take m (m - 1) v 0 (ground arith)) (kept some_left r.2)
]
  where
    m : ℕ
    m = trim_ows v (length v)

    r :
        ((o : Str) × (take (length v) v ≡ take m v ++ o) × AllOws o)
        × (m ≤ length v)
        × ((m ≡ 0) ⊎ (is_ows (get_or v (m - 1) 0) ≡ false))
    r = trim_ows_split v (length v) (omega arith)

    size : length (take m v) ≡ m
    size = omega (arith, length-take m v, r.1)

    kept :
        (m == 0) ≡ false
        → (m ≡ 0) ⊎ (is_ows (get_or v (m - 1) 0) ≡ false)
        → is_ows (get_or v (m - 1) 0) ≡ false
    kept some_left (inl e) = absurd (ground (arith, some_left, e))
    kept some_left (inr e) = e

bare_lem :
    (v : Str) → (ltb 0 (length v) && leb (get_or v (length v - 1) 0) b' ') ≡ false → EndsBare v
bare_lem [] h = refl
bare_lem (c ∷ v) h = ground arith

-- `trimmed` drops the spaces and tabs at the end, and nothing else.
pub trimmed_split : (v : Str) → (o : Str) × (v ≡ trimmed v ++ o) × AllOws o × EndsBare (trimmed v)
unfolding trimmed
trimmed_split v = elim (Bool-cases (ltb 0 (length v) && leb (get_or v (length v - 1) 0) b' ')) [
  | inl maybe ↦
      let r : (o : Str) × (take (length v) v ≡ take (trim_ows v (length v)) v ++ o) × AllOws o =
        (trim_ows_split v (length v) (omega arith)).0 in
      rw maybe (r.0, sym (take-length v (length v) (omega arith)) ∙ r.1, r.2, trim_ows-EndsBare v)
  | inr bare ↦ rw bare ([], sym (append-nil v), tt, bare_lem v bare)
]

AllOws-get_or : (o : List ℕ) (i : ℕ) → AllOws o → i < length o → is_ows (get_or o i 0) ≡ true
AllOws-get_or [] i h lt = absurd (omega arith)
AllOws-get_or (c ∷ o) zero h lt = h.0
AllOws-get_or (c ∷ o) (suc i) h lt = AllOws-get_or o i h.1 (omega arith)

-- The last byte of `v` does not stand among spaces and tabs.
bare-le : (v o t s : Str) → v ++ o ≡ t ++ s → EndsBare v → AllOws s → length v ≤ length t
bare-le v o t s e b h = elim (Bool-cases (leb (length v) (length t))) [
  | inl le ↦ ground (arith, le)
  | inr gt ↦
      let more : length t < length v = ground (arith, gt) in
      let sizes : length v + length o ≡ length t + length s =
        sym (length-append v o) ∙ ap (length {A = ℕ}) e ∙ length-append t s in
      let here : get_or (v ++ o) (length v - 1) 0 ≡ get_or v (length v - 1) 0 =
        get_or-append_left v o (length v - 1) 0 (omega arith) in
      let there : get_or (t ++ s) (length v - 1) 0 ≡ get_or s (length v - 1 - length t) 0 =
        get_or-append_right t s (length v - 1) 0 (omega arith) in
      let space : is_ows (get_or s (length v - 1 - length t) 0) ≡ true =
        AllOws-get_or s (length v - 1 - length t) h (omega arith) in
      let same : get_or v (length v - 1) 0 ≡ get_or s (length v - 1 - length t) 0 =
        sym here ∙ ap (λ x. get_or x (length v - 1) 0) e ∙ there in
      absurd (cc (sym b ∙ ap is_ows same ∙ space))
]

pub trimmed-append : (v o : Str) → EndsBare v → AllOws o → trimmed (v ++ o) ≡ v
trimmed-append v o b h =
    let r : (s : Str) × (v ++ o ≡ trimmed (v ++ o) ++ s) × AllOws s × EndsBare (trimmed (v ++ o)) =
      trimmed_split (v ++ o) in
    let size : length (trimmed (v ++ o)) ≡ length v = omega (
      arith,
      bare-le v o (trimmed (v ++ o)) r.0 r.1 b r.2,
      bare-le (trimmed (v ++ o)) r.0 v o (sym r.1) r.3 h,
    ) in
    sym (take-append_all (trimmed (v ++ o)) r.0)
    ∙ ap (take (length (trimmed (v ++ o)))) (sym r.1)
    ∙ ap (λ n. take n (v ++ o)) size
    ∙ take-append_all v o
