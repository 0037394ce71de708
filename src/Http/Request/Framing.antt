-- ===== src/Http/Request/Framing.antt =====
-- What the headers of a complete request say of its body.
use route_lang.Common.{
  ℕ, ◌≤◌, ◌<◌, ◌≡◌, ◌==◌, ◌&&◌, ◌||◌, refl, ap, sym, subst, ◌∙◌, Bool, true, false, List, [], ◌∷◌,
  ◌++◌, Option, none, some, map, length, length-append, All, arith, inl, inr, Bool-cases,
  Option-cases, leb,
}
use mathlib.Core.List.{append_assoc, append-nil}
use route_lang.Http.{Header, max_headers, ParsedRequest, complete}
use route_lang.Http.Bytes.{Uint, value, einval, erange, parse_uint}
use route_lang.Http.Bytes.Compare.{IsBytes}
use route_lang.Http.Semantic.{
  Semantic, content_length, connection, transfer_encoding, other, semantic, names_chunked,
  set_content_length, apply_semantic, apply_semantic_header,
}
use route_lang.Http.Block.Grammar.{Field, store_all, stored}
use route_lang.Http.Request.{store_header, parse_request}
use route_lang.Http.Request.Laws.{line_of, meaning}
use route_lang.Http.Request.Laws.Sound.{
  ReadRequest, parse_request-ReadRequest, check_framing-complete,
}

abbrev pub header_of : Field → Header
header_of f = record { name = f.name; value = f.value }

abbrev pub any : (Field → Bool) → List Field → Bool
any p [] = false
any p (f ∷ fs) = p f || any p fs

abbrev pub is_length : Field → Bool
is_length f = elim (semantic f.name) [ content_length ↦ true | _ ↦ false ]

abbrev pub is_chunked : Field → Bool
is_chunked f = elim (semantic f.name) [ transfer_encoding ↦ names_chunked f.value | _ ↦ false ]

-- A Content-Length header spells the number `n`.
abbrev pub SaysLength : ℕ → Field → Type 0
SaysLength n f = semantic f.name ≡ content_length → parse_uint f.value ≡ value n

-- How storing the headers `fs` leads from `a` to `b`.
record Stored (a : ParsedRequest) (fs : List Field) (b : ParsedRequest) : Type 0 where
  headers : b.headers ≡ a.headers ++ map header_of fs
  few : length a.headers ≤ max_headers → length b.headers ≤ max_headers
  has : b.has_content_length ≡ (a.has_content_length || any is_length fs)
  same : a.has_content_length ≡ true → b.content_length ≡ a.content_length
  lengths : All (SaysLength b.content_length) fs
  chunked : b.chunked ≡ (a.chunked || any is_chunked fs)

-- One header.
abbrev Step : ParsedRequest → Field → ParsedRequest → Type 0
Step a f c =
    (c.headers ≡ a.headers ++ (header_of f ∷ []))
    × (length a.headers < max_headers)
    × (c.has_content_length ≡ (a.has_content_length || is_length f))
    × (a.has_content_length ≡ true → c.content_length ≡ a.content_length)
    × SaysLength c.content_length f
    × (c.chunked ≡ (a.chunked || is_chunked f))

step_lem : (a c : ParsedRequest) (f : Field) → store_header f.name f.value a ≡ some c → Step a f c
unfolding store_header apply_semantic_header apply_semantic
step_lem a c f e = elim (Bool-cases (leb max_headers (length a.headers))) [
  | inl full ↦ absurd (ground (arith, full))
  | inr room ↦ by_kind (semantic f.name) refl room
]
  where
    by_length :
        (u : Uint)
        → parse_uint f.value ≡ u
        → semantic f.name ≡ content_length
        → leb max_headers (length a.headers) ≡ false
        → Step a f c
    by_length (value n) u k room = elim (Bool-cases a.has_content_length) [
      | inl again ↦ elim (Bool-cases (a.content_length == n)) [
        | inl equal ↦ unfold set_content_length in ground (arith, k, room, u, again, equal)
        | inr differs ↦
            absurd (unfold set_content_length in ground (arith, k, room, u, again, differs))
      ]
      | inr first ↦ unfold set_content_length in ground (arith, k, room, u, first)
    ]
    by_length einval u k room = absurd (unfold set_content_length in ground (arith, k, room, u))
    by_length erange u k room = absurd (unfold set_content_length in ground (arith, k, room, u))

    by_kind :
        (s : Semantic)
        → semantic f.name ≡ s
        → leb max_headers (length a.headers) ≡ false
        → Step a f c
    by_kind content_length k room = by_length (parse_uint f.value) refl k room
    by_kind connection k room = ground (arith, k, room)
    by_kind transfer_encoding k room = ground (arith, k, room)
    by_kind other k room = ground (arith, k, room)

store_all-Stored :
    (fs : List Field) (a b : ParsedRequest) → store_all store_header fs a ≡ some b → Stored a fs b
unfolding store_all
store_all-Stored [] a b e =
    let same : a ≡ b = ground (arith, e) in
    subst (Stored a []) same (record {
      headers = sym (append-nil a.headers);
      few = λ h. h;
      has = ground arith;
      same = λ h. refl;
      lengths = tt;
      chunked = ground arith;
    })
store_all-Stored (f ∷ fs) a b e = elim (Option-cases (store_header f.name f.value a)) [
  | inl refused ↦ absurd (ground (arith, refused))
  | inr (c, done) ↦
      let s : Step a f c = step_lem a c f done in
      let r : Stored c fs b = store_all-Stored fs c b (ground (arith, done)) in
      record {
        headers =
            r.headers
            ∙ ap (λ x. x ++ map header_of fs) s.0
            ∙ append_assoc a.headers (header_of f ∷ []) (map header_of fs);
        few = λ h. r.few (size c s.0 s.1);
        has = ground (arith, s.2, r.has);
        same = λ h. r.same (ground (arith, s.2, h)) ∙ s.3 h;
        lengths = (λ k. s.4 k ∙ ap value (sym (r.same (counted c s.2 k))), r.lengths);
        chunked = ground (arith, s.5, r.chunked);
      }
]
  where
    size :
        (c : ParsedRequest)
        → c.headers ≡ a.headers ++ (header_of f ∷ [])
        → length a.headers < max_headers
        → length c.headers ≤ max_headers
    size c h k =
        omega (arith, ap (length {A = Header}) h, length-append a.headers (header_of f ∷ []))

    counted :
        (c : ParsedRequest)
        → c.has_content_length ≡ (a.has_content_length || is_length f)
        → semantic f.name ≡ content_length
        → c.has_content_length ≡ true
    counted c h k = ground (arith, h, k)

-- How the body of a request is framed: by the Content-Length headers, which all spell the same
-- number, or by a Transfer-Encoding that names chunked, and never by both.
pub record Framed (fields : List Field) (q : ParsedRequest) : Type 0 where
  pub headers : q.headers ≡ map header_of fields
  pub few : length q.headers ≤ max_headers
  pub has : q.has_content_length ≡ any is_length fields
  pub lengths : All (SaysLength q.content_length) fields
  pub chunked : q.chunked ≡ any is_chunked fields
  pub one : (q.chunked && q.has_content_length) ≡ false

-- A request that is complete has at most 64 headers, all of them stored in order, and is framed as
-- they say.
pub parse_request-Framed :
    (buf : List ℕ) (q : ParsedRequest) (body : List ℕ)
    → IsBytes buf
    → parse_request buf ≡ complete q body
    → (r : ReadRequest buf q body) × Framed r.request.fields q
unfolding meaning
parse_request-Framed buf q body h e =
    let r : ReadRequest buf q body = parse_request-ReadRequest buf q body h e in
    let o : Option ParsedRequest = store_all store_header r.request.fields (line_of r.request) in
    let c : (stored store_header o body ≡ complete q body)
        × ((q.chunked && q.has_content_length) ≡ false) =
      check_framing-complete (stored store_header o body) q body r.means in
    let s : Stored (line_of r.request) r.request.fields q =
      store_all-Stored r.request.fields (line_of r.request) q (inner o c.0) in
    (
      r,
      record {
        headers = s.headers;
        few = s.few (omega arith);
        has = s.has;
        lengths = s.lengths;
        chunked = s.chunked;
        one = c.1;
      },
    )
  where
    inner : (o : Option ParsedRequest) → stored store_header o body ≡ complete q body → o ≡ some q
    inner none k = absurd (ground (arith, k))
    inner (some p) k = ground (arith, k)
