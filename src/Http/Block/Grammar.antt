-- ===== src/Http/Block/Grammar.antt =====
-- Header lines as text, and that the loop reads them.
use route_lang.Common.{
  ℕ, zero, suc, ◌<◌, ◌≡◌, ◌≢◌, ◌==◌, refl, ap, subst, ◌∙◌, true, false, List, [], ◌∷◌, ◌++◌, Option,
  none, some, length, All, arith, inl, inr, Bool-cases,
}
use route_lang.Tokens.{Str}
use route_lang.Http.{Parsed, complete, error}
use route_lang.Http.Tables.{token_table, header_value_table}
use route_lang.Http.Scan.{found, scan_header_name, scan_header_value}
use route_lang.Http.Scan.Found.{
  IsToken, IsValue, scan_header_name-found, scan_header_value-found, differs,
}
use route_lang.Http.Block.{
  is_ows, skip_value_ows, parse_value, parse_scanned, parse_behind, parse_named, parse_headers,
}
use route_lang.Http.Block.Space.{
  AllOws, StartsBare, EndsBare, skip_value_ows-append, trimmed-append,
}

-- A header line, with the spaces and tabs round its value.
pub record Field : Type 0 where
  pub name : Str
  pub before : Str
  pub value : Str
  pub after : Str

-- The name is a token, the value is of the bytes allowed and has no space or tab at its ends; with
-- no value, what spaces there are stand in `before`.
pub record IsField (f : Field) : Type 0 where
  pub named : f.name ≢ []
  pub token : IsToken f.name
  pub ows_before : AllOws f.before
  pub ows_after : AllOws f.after
  pub plain : IsValue f.value
  pub ends : EndsBare f.value
  pub begins : StartsBare (f.value ++ f.after)

unfoldable pub field_text : Field → List ℕ → List ℕ
field_text f rest =
    f.name ++ (b':' ∷ (f.before ++ ((f.value ++ f.after) ++ (b'\r' ∷ b'\n' ∷ rest))))

-- The lines, the blank line, and the body.
unfoldable pub block_text : List Field → List ℕ → List ℕ
block_text [] body = b'\r' ∷ b'\n' ∷ body
block_text (f ∷ fs) body = field_text f (block_text fs body)

ows-value : (c : ℕ) → is_ows c ≡ true → header_value_table c ≡ true
unfolding header_value_table
ows-value c h = elim (Bool-cases (c == b' ')) [
  | inl space ↦ (let e : b' ' ≡ c = ground arith in subst (λ k. header_value_table k ≡ true) e refl)
  | inr tab ↦ (let e : b'\t' ≡ c = ground arith in subst (λ k. header_value_table k ≡ true) e refl)
]

AllOws-IsValue : (o : Str) → AllOws o → IsValue o
AllOws-IsValue [] h = tt
AllOws-IsValue (c ∷ o) h = (ows-value c h.0, AllOws-IsValue o h.1)

IsValue-append : (v o : Str) → IsValue v → IsValue o → IsValue (v ++ o)
IsValue-append [] o h k = k
IsValue-append (c ∷ v) o h k = (h.0, IsValue-append v o h.1 k)

pub cr-token : token_table b'\r' ≡ false
unfolding token_table
cr-token = refl

cr-ows : is_ows b'\r' ≡ false
cr-ows = refl

StartsBare-append : (v rest : List ℕ) → StartsBare v → StartsBare (v ++ (b'\r' ∷ rest))
StartsBare-append [] rest h = refl
StartsBare-append (c ∷ v) rest h = h

module _ {A : Type 0} (store : Str → Str → A → Option A) where
  -- The headers stored one after the other.
  unfoldable pub store_all : List Field → A → Option A
  store_all [] a = some a
  store_all (f ∷ fs) a = elim (store f.name f.value a) [ none ↦ none | some a' ↦ store_all fs a' ]

  abbrev pub stored : Option A → List ℕ → Parsed A
  stored o body = elim o [ none ↦ error | some a ↦ complete a body ]

  module _ (buf : List ℕ) where
    parse_behind-scanned :
        (name v t : List ℕ) (a : A) (next : List ℕ → A → Parsed A)
        → parse_behind store buf name (v ++ (b'\r' ∷ t)) a next
          ≡ parse_scanned store buf name (scan_header_value (v ++ (b'\r' ∷ t))) a next
    unfolding parse_behind
    parse_behind-scanned name [] t a next = refl
    parse_behind-scanned name (c ∷ v) t a next = refl

    parse_behind-IsField :
        (f : Field) (name : Str) (rest : List ℕ) (a : A) (next : List ℕ → A → Parsed A)
        → IsField f
        → parse_behind store buf name
            (skip_value_ows (f.before ++ ((f.value ++ f.after) ++ (b'\r' ∷ b'\n' ∷ rest))))
            a
            next
          ≡ (elim (store name f.value a) [ none ↦ error | some a' ↦ next rest a' ])
    unfolding parse_scanned parse_value
    parse_behind-IsField f name rest a next w =
        ap (λ p. parse_behind store buf name p a next)
          (skip_value_ows-append f.before (v ++ (b'\r' ∷ b'\n' ∷ rest)) w.ows_before
            (StartsBare-append v (b'\n' ∷ rest) w.begins))
        ∙ parse_behind-scanned name v (b'\n' ∷ rest) a next
        ∙ ap (λ s. parse_scanned store buf name s a next)
            (scan_header_value-found v (b'\n' ∷ rest) good)
        ∙ ap (λ x. elim (store name x a) [ none ↦ error | some a' ↦ next rest a' ])
            (trimmed-append f.value f.after w.ends w.ows_after)
      where
        v : Str
        v = f.value ++ f.after

        good : IsValue v
        good = IsValue-append f.value f.after w.plain (AllOws-IsValue f.after w.ows_after)

    parse_named-found :
        (name : Str) (t : List ℕ) (a : A) (next : List ℕ → A → Parsed A)
        → name ≢ []
        → parse_named store buf (found name (b':' ∷ t)) a next
          ≡ parse_behind store buf name (skip_value_ows t) a next
    unfolding parse_named
    parse_named-found [] t a next h = absurd (h refl)
    parse_named-found (n ∷ name) t a next h = refl

    parse_named-IsField :
        (f : Field) (rest : List ℕ) (a : A) (next : List ℕ → A → Parsed A)
        → IsField f
        → parse_named store buf (scan_header_name (field_text f rest)) a next
          ≡ (elim (store f.name f.value a) [ none ↦ error | some a' ↦ next rest a' ])
    unfolding field_text
    parse_named-IsField f rest a next w =
        let t : List ℕ = f.before ++ ((f.value ++ f.after) ++ (b'\r' ∷ b'\n' ∷ rest)) in
        ap (λ s. parse_named store buf s a next) (scan_header_name-found f.name t w.token)
        ∙ parse_named-found f.name t a next w.named
        ∙ parse_behind-IsField f f.name rest a next w

    -- A line begins with a byte of its name, and another one follows.
    not_blank :
        (fuel c d : ℕ) (t : List ℕ) (a : A)
        → token_table c ≡ true
        → parse_headers store buf (suc fuel) (c ∷ d ∷ t) a
          ≡ parse_named store buf (scan_header_name (c ∷ d ∷ t)) a (parse_headers store buf fuel)
    unfolding parse_headers
    not_blank fuel c d t a h = rw (differs token_table c b'\r' h cr-token, parse_headers)

    name_line :
        (fuel : ℕ) (name : Str) (t : List ℕ) (a : A)
        → name ≢ []
        → IsToken name
        → parse_headers store buf (suc fuel) (name ++ (b':' ∷ t)) a
          ≡ parse_named store buf
              (scan_header_name (name ++ (b':' ∷ t)))
              a
              (parse_headers store buf fuel)
    name_line fuel [] t a ne h = absurd (ne refl)
    name_line fuel (c ∷ []) t a ne h = not_blank fuel c b':' t a h.0
    name_line fuel (c ∷ d ∷ name) t a ne h = not_blank fuel c d (name ++ (b':' ∷ t)) a h.0

    parse_headers-line :
        (fuel : ℕ) (f : Field) (rest : List ℕ) (a : A)
        → IsField f
        → parse_headers store buf (suc fuel) (field_text f rest) a
          ≡ parse_named store buf
              (scan_header_name (field_text f rest))
              a
              (parse_headers store buf fuel)
    unfolding field_text
    parse_headers-line fuel f rest a w =
        name_line fuel f.name (f.before ++ ((f.value ++ f.after) ++ (b'\r' ∷ b'\n' ∷ rest))) a
          w.named w.token

    -- The loop stores the headers one after the other, up to the blank line.
    pub parse_headers-block :
        (fs : List Field) (fuel : ℕ) (body : List ℕ) (a : A)
        → All IsField fs
        → length fs < fuel
        → parse_headers store buf fuel (block_text fs body) a ≡ stored (store_all fs a) body
    unfolding parse_headers block_text store_all
    parse_headers-block fs zero body a h lt = absurd (omega arith)
    parse_headers-block [] (suc fuel) body a h lt = refl
    parse_headers-block (f ∷ fs) (suc fuel) body a h lt =
        parse_headers-line fuel f (block_text fs body) a h.0
        ∙ parse_named-IsField f (block_text fs body) a (parse_headers store buf fuel) h.0
        ∙ then_rest (store f.name f.value a)
            (λ a'. parse_headers-block fs fuel body a' h.1 (omega arith))
      where
        then_rest :
            (o : Option A)
            → ((a' : A)
                → parse_headers store buf fuel (block_text fs body) a'
                  ≡ stored (store_all fs a') body)
            → (elim o [
              | none ↦ error
              | some a' ↦ parse_headers store buf fuel (block_text fs body) a'
            ])
              ≡ stored (elim o [ none ↦ none | some a' ↦ store_all fs a' ]) body
        then_rest none ih = refl
        then_rest (some a') ih = ih a'
