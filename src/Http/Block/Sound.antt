-- ===== src/Http/Block/Sound.antt =====
-- What the loop reads to the end is header lines.
use route_lang.Common.{
  ℕ, zero, suc, ◌≡◌, ◌≢◌, ◌==◌, refl, ap, ◌∙◌, List, [], ◌∷◌, ◌++◌, Option, some, drop, All, arith,
  inl, inr, Bool-cases, Option-cases,
}
use route_lang.Tokens.{Str}
use route_lang.Http.{Parsed, complete}
use route_lang.Http.Tables.{token_table, header_value_table}
use route_lang.Http.Scan.{Scan, found, invalid, ran_out, scan_header_name, scan_header_value}
use route_lang.Http.Scan.Found.{IsValue, Passed, scan_header_name-Passed, scan_header_value-Passed}
use route_lang.Http.Block.{
  skip_value_ows, trimmed, maybe_incomplete, parse_value, parse_scanned, parse_behind, parse_named,
  parse_headers,
}
use route_lang.Http.Block.Space.{AllOws, StartsBare, EndsBare, skip_value_ows_split, trimmed_split}
use route_lang.Http.Block.Grammar.{Field, IsField, field_text, block_text, store_all}

pub maybe_incomplete-ne-complete :
    {A : Type 0} (buf : List ℕ) (b : A) (body : List ℕ) → maybe_incomplete buf ≢ complete b body
unfolding maybe_incomplete
maybe_incomplete-ne-complete buf b body e = ground arith

pub IsValue-left : (v o : Str) → IsValue (v ++ o) → IsValue v
IsValue-left [] o h = tt
IsValue-left (c ∷ v) o h = (h.0, IsValue-left v o h.1)

StartsBare-left : (v : Str) (c : ℕ) (t : List ℕ) → StartsBare (v ++ (c ∷ t)) → StartsBare v
StartsBare-left [] c t h = refl
StartsBare-left (d ∷ v) c t h = h

module _ {A : Type 0} (store : Str → Str → A → Option A) (buf : List ℕ)
    (next : List ℕ → A → Parsed A) (b : A) (body : List ℕ) where
  -- What stands behind a name, up to the next line.
  record Behind (name : Str) (p : List ℕ) (a : A) : Type 0 where
    value : Str
    after : Str
    rest : List ℕ
    a' : A
    text : p ≡ (value ++ after) ++ (b'\r' ∷ b'\n' ∷ rest)
    plain : IsValue value
    ows : AllOws after
    ends : EndsBare value
    stored : store name value a ≡ some a'
    onward : next rest a' ≡ complete b body

  parse_value-Behind :
      (name v from p : List ℕ) (a : A)
      → Passed header_value_table b'\r' p v from
      → parse_value store buf name v from a next ≡ complete b body
      → Behind name p a
  unfolding parse_value
  parse_value-Behind name v [] p a q e = absurd (maybe_incomplete-ne-complete buf b body e)
  parse_value-Behind name v (c ∷ []) p a q e = absurd (maybe_incomplete-ne-complete buf b body e)
  parse_value-Behind name v (c ∷ d ∷ rest) p a q e =
      elim (Option-cases (store name (trimmed v) a)) [
        | inl refused ↦ absurd (ground (arith, refused))
        | inr (a', s) ↦ elim (Bool-cases (d == b'\n')) [
          | inr other ↦ absurd (ground (arith, other))
          | inl lf ↦
              let r : (o : Str) × (v ≡ trimmed v ++ o) × AllOws o × EndsBare (trimmed v) =
                trimmed_split v in
              let cr : c ≡ b'\r' = ground (arith, q.2) in
              let nl : d ≡ b'\n' = ground (arith, lf) in
              record {
                value = trimmed v;
                after = r.0;
                rest = rest;
                a' = a';
                text =
                    q.0
                    ∙ ap (λ x. x ++ (c ∷ d ∷ rest)) r.1
                    ∙ ap (λ x. (trimmed v ++ r.0) ++ (x ∷ d ∷ rest)) cr
                    ∙ ap (λ x. (trimmed v ++ r.0) ++ (b'\r' ∷ x ∷ rest)) nl;
                plain = IsValue-left (trimmed v) r.0 (rw r.1 at q.1);
                ows = r.2;
                ends = r.3;
                stored = s;
                onward = ground (arith, s, lf);
              }
        ]
      ]

  parse_scanned-Behind :
      (name p : List ℕ) (s : Scan) (a : A)
      → scan_header_value p ≡ s
      → parse_scanned store buf name s a next ≡ complete b body
      → Behind name p a
  unfolding parse_scanned
  parse_scanned-Behind name p invalid a h e = absurd (ground (arith, e))
  parse_scanned-Behind name p ran_out a h e = absurd (maybe_incomplete-ne-complete buf b body e)
  parse_scanned-Behind name p (found v from) a h e =
      parse_value-Behind name v from p a (scan_header_value-Passed p v from h) e

  parse_behind-Behind :
      (name p : List ℕ) (a : A)
      → parse_behind store buf name p a next ≡ complete b body
      → Behind name p a
  unfolding parse_behind
  parse_behind-Behind name [] a e = absurd (maybe_incomplete-ne-complete buf b body e)
  parse_behind-Behind name (c ∷ p) a e =
      parse_scanned-Behind name (c ∷ p) (scan_header_value (c ∷ p)) a refl e

  -- A line, and how the loop goes on.
  record Line (p : List ℕ) (a : A) : Type 0 where
    field : Field
    valid : IsField field
    rest : List ℕ
    a' : A
    text : p ≡ field_text field rest
    stored : store field.name field.value a ≡ some a'
    onward : next rest a' ≡ complete b body

  Behind-Line :
      (name : Str) (from p : List ℕ) (a : A)
      → name ≢ []
      → Passed token_table b':' p name from
      → Behind name (skip_value_ows (drop 1 from)) a
      → Line p a
  unfolding field_text
  Behind-Line name from p a ne q h =
      let o : (o : List ℕ) × (drop 1 from ≡ o ++ skip_value_ows (drop 1 from))
          × AllOws o
          × StartsBare (skip_value_ows (drop 1 from)) =
        skip_value_ows_split (drop 1 from) in
      let begins : StartsBare ((h.value ++ h.after) ++ (b'\r' ∷ b'\n' ∷ h.rest)) =
        rw h.text at o.3 in
      record {
        field = record { name = name; before = o.0; value = h.value; after = h.after };
        valid = record {
          named = ne;
          token = q.1;
          ows_before = o.2;
          ows_after = h.ows;
          plain = h.plain;
          ends = h.ends;
          begins = StartsBare-left (h.value ++ h.after) b'\r' (b'\n' ∷ h.rest) begins;
        };
        rest = h.rest;
        a' = h.a';
        text =
            q.0
            ∙ ap (λ x. name ++ x) q.2
            ∙ ap (λ x. name ++ (b':' ∷ x)) o.1
            ∙ ap (λ x. name ++ (b':' ∷ (o.0 ++ x))) h.text;
        stored = h.stored;
        onward = h.onward;
      }

  parse_named-Line :
      (p : List ℕ) (s : Scan) (a : A)
      → scan_header_name p ≡ s
      → parse_named store buf s a next ≡ complete b body
      → Line p a
  unfolding parse_named
  parse_named-Line p ran_out a h e = absurd (maybe_incomplete-ne-complete buf b body e)
  parse_named-Line p invalid a h e = absurd (maybe_incomplete-ne-complete buf b body e)
  parse_named-Line p (found [] from) a h e = absurd (ground (arith, e))
  parse_named-Line p (found (n ∷ name) from) a h e =
      Behind-Line (n ∷ name) from p a (λ x. cc) (scan_header_name-Passed p (n ∷ name) from h)
        (parse_behind-Behind (n ∷ name) (skip_value_ows (drop 1 from)) a e)

-- The header lines that the loop has read.
pub record Block {A : Type 0} (store : Str → Str → A → Option A) (p : List ℕ) (a b : A)
    (body : List ℕ) : Type 0 where
  pub fields : List Field
  pub valid : All IsField fields
  pub text : p ≡ block_text fields body
  pub stored : store_all store fields a ≡ some b

module _ {A : Type 0} (store : Str → Str → A → Option A) (buf : List ℕ) (b : A)
    (body : List ℕ) where
  Line-Block :
      (fuel : ℕ) (p : List ℕ) (a : A)
      → ((q : List ℕ) (c : A)
          → parse_headers store buf fuel q c ≡ complete b body
          → Block store q c b body)
      → Line store buf (parse_headers store buf fuel) b body p a
      → Block store p a b body
  unfolding block_text store_all
  Line-Block fuel p a ih l =
      let r : Block store l.rest l.a' b body = ih l.rest l.a' l.onward in
      record {
        fields = l.field ∷ r.fields;
        valid = (l.valid, r.valid);
        text = l.text ∙ ap (field_text l.field) r.text;
        stored = rw (l.stored, store_all) r.stored;
      }

  pub parse_headers-Block :
      (fuel : ℕ) (p : List ℕ) (a : A)
      → parse_headers store buf fuel p a ≡ complete b body
      → Block store p a b body
  unfolding parse_headers block_text store_all
  parse_headers-Block zero p a e = absurd (ground (arith, e))
  parse_headers-Block (suc fuel) [] a e = absurd (ground (arith, e))
  parse_headers-Block (suc fuel) (c ∷ []) a e = absurd (ground (arith, e))
  parse_headers-Block (suc fuel) (c ∷ d ∷ rest) a e = elim (Bool-cases (c == b'\r')) [
    | inl cr ↦ elim (Bool-cases (d == b'\n')) [
      | inr other ↦ absurd (ground (arith, cr, other))
      | inl lf ↦ record {
        fields = [];
        valid = tt;
        text = ground (arith, cr, lf, e);
        stored = ground (arith, cr, lf, e);
      }
    ]
    | inr more ↦ Line-Block fuel (c ∷ d ∷ rest) a (parse_headers-Block fuel) (
        parse_named-Line store buf (parse_headers store buf fuel) b body (c ∷ d ∷ rest)
          (scan_header_name (c ∷ d ∷ rest)) a refl (ground (arith, more)))
  ]
