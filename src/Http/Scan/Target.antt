-- ===== src/Http/Scan/Target.antt =====
-- What `scan_uri` finds: the target up to the space, and its part before the query.
use route_lang.Common.{
  ℕ, ◌≡◌, ◌==◌, refl, ap, sym, ◌∙◌, List, [], ◌∷◌, ◌++◌, drop, arith, inl, inr, Bool-cases,
  if◌then◌else◌, ◌||◌, Option, none, some,
}
use mathlib.Core.List.{append_assoc, append-nil}
use route_lang.Tokens.{Str}
use route_lang.Canon.{cut_query}
use route_lang.Http.Tables.{uri_table}
use route_lang.Http.Scan.{found_uri, scan_uri_from, scan_uri}
use route_lang.Http.Scan.Found.{IsUri, differs, space-uri}

-- `canon_end` when the bytes from the position on are `u`.
abbrev canon_end : Str → Option Str → Str → Str
canon_end seen canon u = elim canon [ some s ↦ s | none ↦ seen ++ cut_query u ]

canon_end-step :
    (seen : Str) (canon : Option Str) (c : ℕ) (u : Str)
    → canon_end
        (seen ++ (c ∷ []))
        (elim canon [ some s ↦ some s | none ↦ if c == b'?' || c == b'#' then some seen else none ])
        u
      ≡ canon_end seen canon (c ∷ u)
unfolding cut_query
canon_end-step seen (some s) c u = refl
canon_end-step seen none c u = elim (Bool-cases (c == b'?' || c == b'#')) [
  | inl ends ↦ rw ends (sym (append-nil seen))
  | inr plain ↦ rw plain (append_assoc seen (c ∷ []) (cut_query u))
]

scan_uri_from-found :
    (seen : Str) (canon : Option Str) (u : Str) (rest : List ℕ)
    → IsUri u
    → scan_uri_from seen canon (u ++ (b' ' ∷ rest))
      ≡ found_uri (seen ++ u) (canon_end seen canon u) (b' ' ∷ rest)
unfolding scan_uri_from cut_query
scan_uri_from-found seen (some s) [] rest h = rw append-nil
scan_uri_from-found seen none [] rest h = rw append-nil
scan_uri_from-found seen canon (c ∷ u) rest h =
    rw (differs uri_table c b' ' h.0 space-uri, h.0)
      (scan_uri_from-found (seen ++ (c ∷ []))
          (elim canon [
            | some s ↦ some s
            | none ↦ if c == b'?' || c == b'#' then some seen else none
          ])
          u rest h.1
        ∙ ap
            (λ t.
              found_uri t
                (canon_end (seen ++ (c ∷ []))
                  (elim canon [
                    | some s ↦ some s
                    | none ↦ if c == b'?' || c == b'#' then some seen else none
                  ])
                  u)
                (b' ' ∷ rest))
            (append_assoc seen (c ∷ []) u)
        ∙ ap (λ t. found_uri (seen ++ (c ∷ u)) t (b' ' ∷ rest)) (canon_end-step seen canon c u))

pub scan_uri-found :
    (uri : Str) (rest : List ℕ)
    → IsUri uri
    → scan_uri (uri ++ (b' ' ∷ rest)) ≡ found_uri uri (cut_query uri) (b' ' ∷ rest)
unfolding scan_uri
scan_uri-found uri rest h = scan_uri_from-found [] none uri rest h

-- The target that a scan has passed.
record PassedUri (seen : Str) (canon : Option Str) (p : List ℕ) (uri cn : Str) (from : List ℕ)
    : Type 0 where
  passed : Str
  split : p ≡ passed ++ from
  valid : IsUri passed
  whole : uri ≡ seen ++ passed
  cut : cn ≡ canon_end seen canon passed
  space : from ≡ b' ' ∷ drop 1 from

scan_uri_from-Passed :
    (seen : Str) (canon : Option Str) (p : List ℕ) (uri cn : Str) (from : List ℕ)
    → scan_uri_from seen canon p ≡ found_uri uri cn from
    → PassedUri seen canon p uri cn from
unfolding scan_uri_from cut_query
scan_uri_from-Passed seen canon [] uri cn from e = absurd (ground arith)
scan_uri_from-Passed seen canon (c ∷ p) uri cn from e = elim (Bool-cases (c == b' ')) [
  | inl space ↦ record {
    passed = [];
    split = ground arith;
    valid = tt;
    whole = ground (arith, append-nil seen);
    cut = last canon (ground arith);
    space = ground arith;
  }
  | inr other ↦ elim (Bool-cases (uri_table c)) [
    | inr bad ↦ absurd (ground arith)
    | inl good ↦
        let next : Option Str = elim canon [
          | some s ↦ some s
          | none ↦ if c == b'?' || c == b'#' then some seen else none
        ] in
        let r : PassedUri (seen ++ (c ∷ [])) next p uri cn from =
          scan_uri_from-Passed (seen ++ (c ∷ [])) next p uri cn from (rw (other, good) at e) in
        record {
          passed = c ∷ r.passed;
          split = ap (◌∷◌ c) r.split;
          valid = (good, r.valid);
          whole = r.whole ∙ append_assoc seen (c ∷ []) r.passed;
          cut = r.cut ∙ canon_end-step seen canon c r.passed;
          space = r.space;
        }
  ]
]
  where
    last :
        (o : Option Str)
        → found_uri seen (elim o [ some s ↦ s | none ↦ seen ]) (c ∷ p) ≡ found_uri uri cn from
        → cn ≡ canon_end seen o []
    last none f = ground (arith, f, append-nil seen)
    last (some s) f = ground (arith, f)

pub scan_uri-Passed :
    (p : List ℕ) (uri cn : Str) (from : List ℕ)
    → scan_uri p ≡ found_uri uri cn from
    → (p ≡ uri ++ from) × IsUri uri × (cn ≡ cut_query uri) × (from ≡ b' ' ∷ drop 1 from)
unfolding scan_uri
scan_uri-Passed p uri cn from e =
    let r : PassedUri [] none p uri cn from = scan_uri_from-Passed [] none p uri cn from e in
    rw r.whole (r.split, r.valid, r.cut, r.space)
