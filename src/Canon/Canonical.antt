-- ===== src/Canon/Canonical.antt =====
-- What canonicalization strips, and that the tokenizer does not see it.
use route_lang.Common.{
  take-suc, get_or-take, ℕ, zero, suc, ◌-◌, ◌≤◌, ◌==◌, ◌≡◌, ◌≢◌, ◌⊎◌, refl, ap, sym, ◌∙◌, ◌||◌, [],
  ◌∷◌, ◌++◌, length, get_or, take, replicate, take-length, length-take, ltb, All, arith, inl, inr,
  Bool-cases,
}
use mathlib.Core.List.{append_assoc, append-nil}
use route_lang.Tokens.{Str, max_path_segments, tokenize_segments}
use route_lang.Tokens.Segments.{segments, tokenize_segments-segments}
use route_lang.Tokens.Slashes.{segments-slashes}
use route_lang.Canon.{
  skip_slashes, trim_end, finalize_path_canonical, cut_query, canonicalize_request,
}

skip_slashes_lem :
    (s : Str)
    → ((j : ℕ) × (s ≡ replicate j b'/' ++ skip_slashes s)) × (get_or (skip_slashes s) 0 0 ≢ b'/')
unfolding skip_slashes
skip_slashes_lem [] = ((0, refl), λ e. omega arith)
skip_slashes_lem (c ∷ s) = elim (Bool-cases (c == b'/')) [
  | inl slash ↦
      let r : ((j : ℕ) × (s ≡ replicate j b'/' ++ skip_slashes s))
          × (get_or (skip_slashes s) 0 0 ≢ b'/') =
        skip_slashes_lem s in
      rw slash ((suc r.0.0, ground (arith, r.0.1)), r.1)
  | inr other ↦ rw other ((0, refl), λ e. ground arith)
]

slashes-snoc : (k : ℕ) → ◌++◌ {A = ℕ} (replicate k b'/') (b'/' ∷ []) ≡ replicate (suc k) b'/'
slashes-snoc zero = refl
slashes-snoc (suc k) = ap {A = Str} (λ t. b'/' ∷ t) (slashes-snoc k)

-- The bytes behind the place that is found are slashes, and the one before it is not.
trim_end_lem :
    (s : Str) (n : ℕ)
    → n ≤ length s
    → ((k : ℕ) × (take n s ≡ take (trim_end s n) s ++ replicate k b'/'))
      × (trim_end s n ≤ n)
      × ((trim_end s n ≡ 0) ⊎ (get_or s (trim_end s n - 1) 0 ≢ b'/'))
unfolding trim_end
trim_end_lem s zero h = ((0, refl), omega arith, inl refl)
trim_end_lem s (suc n) h = elim (Bool-cases (get_or s n 0 == b'/')) [
  | inr other ↦
      rw other ((0, sym (append-nil (take (suc n) s))), omega arith, inr (λ e. ground arith))
  | inl slash ↦
      let r : ((k : ℕ) × (take n s ≡ take (trim_end s n) s ++ replicate k b'/'))
          × (trim_end s n ≤ n)
          × ((trim_end s n ≡ 0) ⊎ (get_or s (trim_end s n - 1) 0 ≢ b'/')) =
        trim_end_lem s n (omega arith) in
      let byte : get_or s n 0 ≡ b'/' = ground arith in
      let all : take (suc n) s ≡ take (trim_end s n) s ++ replicate (suc r.0.0) b'/' =
        take-suc s n 0 (omega arith)
        ∙ ap (λ b. take n s ++ (b ∷ [])) byte
        ∙ ap (λ t. t ++ (b'/' ∷ [])) r.0.1
        ∙ append_assoc (take (trim_end s n) s) (replicate r.0.0 b'/') (b'/' ∷ [])
        ∙ ap (λ t. take (trim_end s n) s ++ t) (slashes-snoc r.0.0) in
      rw slash ((suc r.0.0, all), omega arith, r.2)
]

-- `core` is `s` without the slashes at both ends.
pub record Trimmed (s core : Str) : Type 0 where
  pub before : ℕ
  pub after : ℕ
  pub parts : s ≡ replicate before b'/' ++ (core ++ replicate after b'/')
  pub first : get_or core 0 0 ≢ b'/'
  pub last : get_or core (length core - 1) 0 ≢ b'/'

-- `finalize_path_canonical` strips all slashes at both ends, and only these.
pub finalize_path_canonical-Trimmed : (s : Str) → Trimmed s (finalize_path_canonical s)
unfolding finalize_path_canonical
finalize_path_canonical-Trimmed s = record {
  before = (skip_slashes_lem s).0.0;
  after = r.0.0;
  parts =
      (skip_slashes_lem s).0.1
      ∙ ap (λ x. replicate (skip_slashes_lem s).0.0 b'/' ++ x)
          (sym (take-length t (length t) (omega arith)) ∙ r.0.1);
  first = first;
  last = last;
}
  where
    t : Str
    t = skip_slashes s

    r :
        ((k : ℕ) × (take (length t) t ≡ take (trim_end t (length t)) t ++ replicate k b'/'))
        × (trim_end t (length t) ≤ length t)
        × ((trim_end t (length t) ≡ 0) ⊎ (get_or t (trim_end t (length t) - 1) 0 ≢ b'/'))
    r = trim_end_lem t (length t) (omega arith)

    m : ℕ
    m = trim_end t (length t)

    size : length (take m t) ≡ m
    size = omega (arith, length-take m t, r.1)

    nothing : m ≡ 0 → (i : ℕ) → get_or (take m t) i 0 ≡ 0
    nothing e i = rw e refl

    first : get_or (take m t) 0 0 ≢ b'/'
    first e = elim (Bool-cases (m == 0)) [
      | inl none_left ↦ absurd (ground (arith, nothing (ground arith) 0))
      | inr some_left ↦ absurd (ground (arith, get_or-take m 0 t 0, (skip_slashes_lem s).1))
    ]

    last : get_or (take m t) (length (take m t) - 1) 0 ≢ b'/'
    last e = elim (Bool-cases (m == 0)) [
      | inl none_left ↦ absurd (ground (arith, nothing (ground arith) (length (take m t) - 1)))
      | inr some_left ↦ absurd (ground (arith, size, get_or-take m (m - 1) t 0, r.2))
    ]

-- A byte that ends the path.
abbrev IsEnd : ℕ → Type 0
IsEnd c = (c ≡ b'?') ⊎ (c ≡ b'#')

-- `path` is `target` and, from the first `?` or `#` on, `query`.
pub record Cut (path target query : Str) : Type 0 where
  pub whole : path ≡ target ++ query
  pub plain : All (λ c. (c ≢ b'?') × (c ≢ b'#')) target
  pub starts : (query ≡ []) ⊎ ((c : ℕ) × (rest : Str) × IsEnd c × (query ≡ c ∷ rest))

cut_query-Cut : (path : Str) → (query : Str) × Cut path (cut_query path) query
unfolding cut_query
cut_query-Cut [] = ([], record { whole = refl; plain = tt; starts = inl refl })
cut_query-Cut (c ∷ s) = elim (Bool-cases (c == b'?' || c == b'#')) [
  | inl ends ↦
      rw ends (c ∷ s, record { whole = refl; plain = tt; starts = inr (c, s, ground arith, refl) })
  | inr plain ↦
      let r : (query : Str) × Cut s (cut_query s) query = cut_query-Cut s in
      rw plain (
        r.0,
        record {
          whole = ap (◌∷◌ c) r.1.whole;
          plain = ((λ e. ground arith, λ e. ground arith), r.1.plain);
          starts = r.1.starts;
        },
      )
]

-- `canonicalize_request` cuts the path at its first `?` or `#`, and strips the slashes at both ends
-- of what stands before: all of them, and nothing else.
pub canonicalize_request-Trimmed :
    (path : Str)
    → (target query : Str) × Cut path target query × Trimmed target (canonicalize_request path)
unfolding canonicalize_request
canonicalize_request-Trimmed path = (
  cut_query path,
  (cut_query-Cut path).0,
  (cut_query-Cut path).1,
  finalize_path_canonical-Trimmed (cut_query path),
)

-- The segments of a canonical path are those of the path before the query.
pub tokenize_segments-canonicalize_request :
    (path : Str)
    → tokenize_segments (canonicalize_request path) ≡ tokenize_segments (cut_query path)
unfolding canonicalize_request
tokenize_segments-canonicalize_request path =
    tokenize_segments-segments core
    ∙ ap
        (λ ss. record {
          segs = take max_path_segments ss;
          overflow = ltb max_path_segments (length ss);
        })
        same
    ∙ sym (tokenize_segments-segments (cut_query path))
  where
    core : Str
    core = finalize_path_canonical (cut_query path)

    c : Trimmed (cut_query path) core
    c = finalize_path_canonical-Trimmed (cut_query path)

    same : segments core ≡ segments (cut_query path)
    same = sym (ap segments c.parts ∙ segments-slashes c.before c.after core)
