-- ===== src/Select/Overlap.antt =====
-- Prefixes in bytes and prefixes in segments, for has_boundary_sensitive_overlap.
use route_lang.Common.{
  ℕ, suc, ◌<◌, ◌≡◌, ◌⊎◌, ◌↔◌, ◌&&◌, ◌||◌, not, refl, ap, ◌∙◌, Bool, true, false, List, [], ◌∷◌,
  ◌++◌, arith, length, length-append, get_or, get_or-append_right, leb, All, Bool-cases, inl, inr,
}
use route_lang.Tokens.{Str}
use route_lang.Canon.{finalize_path_canonical}
use route_lang.Select.{
  prefix_bytes, is_strict_byte_prefix, boundary_sensitive_after_prefix, overlap, overlaps_any,
  path_has_param_segment, has_boundary_sensitive_overlap, any_has_param, needs_segment_aware,
}

-- Where `b` goes on behind `a`, a segment begins.
unfoldable pub Aligned : Str → Str → Type 0
Aligned a b = (s : Str) → b ≡ a ++ s → (a ≡ []) ⊎ ((s ≡ []) ⊎ (get_or s 0 0 ≡ b'/'))

prefix_bytes-append : (a s : Str) → prefix_bytes a (a ++ s) ≡ true
unfolding prefix_bytes
prefix_bytes-append [] s = refl
prefix_bytes-append (x ∷ a) s = ground (arith, prefix_bytes-append a s)

-- What stands behind a prefix.
prefix_bytes_split : (a b : Str) → prefix_bytes a b ≡ true → (s : Str) × (b ≡ a ++ s)
unfolding prefix_bytes
prefix_bytes_split [] b h = (b, refl)
prefix_bytes_split (x ∷ a) [] h = absurd (ground (arith, h))
prefix_bytes_split (x ∷ a) (y ∷ b) h =
    let r : (s : Str) × (b ≡ a ++ s) = prefix_bytes_split a b (ground (arith, h)) in
    let same : y ≡ x = ground (arith, h) in (r.0, rw same (ap (◌∷◌ x) r.1))

-- One direction of the test of a pair.
abbrev sensitive : Str → Str → Bool
sensitive a b = is_strict_byte_prefix a b && boundary_sensitive_after_prefix a b

sensitive-Aligned : (a b : Str) → sensitive a b ≡ false → Aligned a b
unfolding is_strict_byte_prefix boundary_sensitive_after_prefix Aligned
sensitive-Aligned [] b h s e = inl refl
sensitive-Aligned (x ∷ a) b h [] e = inr (inl refl)
sensitive-Aligned (x ∷ a) b h (c ∷ s) e = inr (
    inr (
      ground (
        arith,
        h,
        ap (prefix_bytes (x ∷ a)) e,
        prefix_bytes-append (x ∷ a) (c ∷ s),
        ap (length {A = ℕ}) e,
        length-append (x ∷ a) (c ∷ s),
        ap (λ r. get_or r (suc (length a)) 0) e,
        get_or-append_right (x ∷ a) (c ∷ s) (suc (length a)) 0,
      )))

Aligned-sensitive : (a b : Str) → Aligned a b → sensitive a b ≡ false
unfolding is_strict_byte_prefix boundary_sensitive_after_prefix Aligned
Aligned-sensitive [] b h = ground arith
Aligned-sensitive (x ∷ a) b h =
    elim (Bool-cases (leb (length b) (suc (length a)) || not (prefix_bytes (x ∷ a) b))) [
      | inl other ↦ ground (arith, other)
      | inr strict ↦
          let r : (s : Str) × (b ≡ (x ∷ a) ++ s) =
            prefix_bytes_split (x ∷ a) b (ground (arith, strict)) in
          elim (h r.0 r.1) [
            | inl empty ↦ absurd cc
            | inr (inl nothing) ↦ absurd (
                omega (
                  arith,
                  longer strict,
                  ap (length {A = ℕ}) r.1,
                  length-append (x ∷ a) r.0,
                  ap (length {A = ℕ}) nothing,
                ))
            | inr (inr slash) ↦
                let at : get_or b (suc (length a)) 0 ≡ b'/' =
                  ap (λ t. get_or t (suc (length a)) 0) r.1
                  ∙ get_or-append_right (x ∷ a) r.0 (suc (length a)) 0 (omega arith)
                  ∙ ap (λ k. get_or r.0 k 0) (omega arith)
                  ∙ slash in
                ground (arith, strict, at)
          ]
    ]
  where
    longer :
        (leb (length b) (suc (length a)) || not (prefix_bytes (x ∷ a) b)) ≡ false
        → suc (length a) < length b
    longer q = ground (arith, q)

exclusive : (a b : Str) → is_strict_byte_prefix a b ≡ true → is_strict_byte_prefix b a ≡ false
unfolding is_strict_byte_prefix
exclusive a b h = ground (arith, h)

-- The test of a pair, both directions.
overlap-Aligned : (a b : Str) → (overlap a b ≡ false) ↔ (Aligned a b × Aligned b a)
unfolding overlap
overlap-Aligned a b = (
  λ h. (
    sensitive-Aligned a b (ground (arith, h)),
    sensitive-Aligned b a (ground (arith, h, exclusive a b)),
  ),
  λ h. ground (arith, Aligned-sensitive a b h.0, Aligned-sensitive b a h.1),
)

abbrev canon : Str → Str
canon = finalize_path_canonical

-- Two routes whose canonical paths are aligned both ways.
unfoldable pub AlignedRoutes : Str → Str → Type 0
AlignedRoutes p q = Aligned (canon p) (canon q) × Aligned (canon q) (canon p)

overlaps_any-All :
    (p : Str) (qs : List Str) → (overlaps_any p qs ≡ false) ↔ All (AlignedRoutes p) qs
unfolding overlaps_any AlignedRoutes
overlaps_any-All p [] = (λ h. tt, λ h. refl)
overlaps_any-All p (q ∷ qs) = (
  λ h. (
    (overlap-Aligned (canon p) (canon q)).0 (ground (arith, h)),
    (overlaps_any-All p qs).0 (ground (arith, h)),
  ),
  λ h. ground (arith, (overlap-Aligned (canon p) (canon q)).1 h.0, (overlaps_any-All p qs).1 h.1),
)

-- Each two routes of a list.
unfoldable pub Pairwise : (Str → Str → Type 0) → List Str → Type 0
Pairwise R [] = Unit
Pairwise R (p ∷ ps) = All (R p) ps × Pairwise R ps

has_overlap-Pairwise :
    (ps : List Str) → (has_boundary_sensitive_overlap ps ≡ false) ↔ Pairwise AlignedRoutes ps
unfolding has_boundary_sensitive_overlap Pairwise
has_overlap-Pairwise [] = (λ h. tt, λ h. refl)
has_overlap-Pairwise (p ∷ ps) = (
  λ h. (
    (overlaps_any-All p ps).0 (ground (arith, h)),
    (has_overlap-Pairwise ps).0 (ground (arith, h)),
  ),
  λ h. ground (arith, (overlaps_any-All p ps).1 h.0, (has_overlap-Pairwise ps).1 h.1),
)

any_has_param-All :
    (ps : List Str) → (any_has_param ps ≡ false) ↔ All (λ p. path_has_param_segment p ≡ false) ps
unfolding any_has_param
any_has_param-All [] = (λ h. tt, λ h. refl)
any_has_param-All (p ∷ ps) = (
  λ h. (ground (arith, h), (any_has_param-All ps).0 (ground (arith, h))),
  λ h. ground (arith, h.0, (any_has_param-All ps).1 h.1),
)

-- A set of routes needs no dispatch by segments exactly if no path has a parameter and, of each two
-- canonical paths, where one is a prefix of the other in bytes it is empty, the same, or a slash
-- follows.
pub needs_segment_aware-Pairwise :
    (ps : List Str)
    → (needs_segment_aware ps ≡ false)
      ↔ (All (λ p. path_has_param_segment p ≡ false) ps × Pairwise AlignedRoutes ps)
unfolding needs_segment_aware
needs_segment_aware-Pairwise ps = (
  λ h. (
    (any_has_param-All ps).0 (ground (arith, h)),
    (has_overlap-Pairwise ps).0 (ground (arith, h)),
  ),
  λ h. ground (arith, (any_has_param-All ps).1 h.0, (has_overlap-Pairwise ps).1 h.1),
)
