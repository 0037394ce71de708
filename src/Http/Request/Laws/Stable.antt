-- ===== src/Http/Request/Laws/Stable.antt =====
-- HttpParser::parse on a buffer with more bytes behind a request.
use route_lang.Common.{
  ℕ, ◌+◌, ◌≡◌, ◌&&◌, false, refl, ap, sym, ◌∙◌, drop, drop-append_all, length, List, [], ◌∷◌, ◌++◌,
  Option, none, some, length-append, arith,
}
use mathlib.Core.List.{append_assoc}
use route_lang.Http.{ParsedRequest, complete}
use route_lang.Http.Bytes.Compare.{IsBytes}
use route_lang.Http.Block.Grammar.{Field, field_text, block_text, store_all, stored}
use route_lang.Http.Request.{
  store_header, check_framing, parse_head, parse_request, end_of, header_end,
}
use route_lang.Http.Request.Laws.{Request, request_text, line_of, head_meaning, parse_head-text}
use route_lang.Http.Request.Laws.Sound.{ReadHead, parse_head-ReadHead, check_framing-complete}

field_text-append :
    (f : Field) (rest more : List ℕ) → field_text f rest ++ more ≡ field_text f (rest ++ more)
unfolding field_text
field_text-append f rest more = simp (append_assoc)

block_text-append :
    (fs : List Field) (body more : List ℕ)
    → block_text fs body ++ more ≡ block_text fs (body ++ more)
unfolding block_text
block_text-append [] body more = refl
block_text-append (f ∷ fs) body more =
    field_text-append f (block_text fs body) more
    ∙ ap (field_text f) (block_text-append fs body more)

pub request_text-append :
    (r : Request) (body more : List ℕ) → request_text r body ++ more ≡ request_text r (body ++ more)
unfolding request_text
request_text-append r body more = simp (append_assoc, block_text-append)

head_meaning-append :
    (r : Request) (q : ParsedRequest) (body more : List ℕ)
    → head_meaning r body ≡ complete q body
    → head_meaning r (body ++ more) ≡ complete q (body ++ more)
unfolding head_meaning
head_meaning-append r q body more e = split (store_all store_header r.fields (line_of r)) e
  where
    split :
        (o : Option ParsedRequest)
        → stored store_header o body ≡ complete q body
        → stored store_header o (body ++ more) ≡ complete q (body ++ more)
    split none h = absurd (ground (arith, h))
    split (some p) h = ground (arith, h)

-- Where the loop over the headers ended there is the body.
header_end-body :
    (buf : List ℕ) (q : ParsedRequest) (body : List ℕ)
    → IsBytes buf
    → parse_head buf ≡ complete q body
    → (header_end buf + length body ≡ length buf) × (drop (header_end buf) buf ≡ body)
unfolding header_end
header_end-body buf q body h e =
    let r : ReadHead buf q body = parse_head-ReadHead buf q body h e in
    let line : List ℕ = request_text r.request [] in
    let whole : buf ≡ line ++ body = r.text ∙ sym (request_text-append r.request [] body) in
    let size : length buf ≡ length line + length body =
      ap (length {A = ℕ}) whole ∙ length-append line body in
    let at : end_of buf (parse_head buf) ≡ length line = rw e (omega (arith, size)) in
    (
      omega (arith, at, size),
      ap (λ n. drop n buf) at ∙ ap (drop (length line)) whole ∙ drop-append_all line body,
    )

-- More bytes behind a request whose header loop was completed.
parse_head-append :
    (buf more : List ℕ) (q : ParsedRequest) (body : List ℕ)
    → IsBytes buf
    → parse_head buf ≡ complete q body
    → (parse_head (buf ++ more) ≡ complete q (body ++ more))
      × (header_end (buf ++ more) ≡ header_end buf)
unfolding header_end
parse_head-append buf more q body h e =
    let r : ReadHead buf q body = parse_head-ReadHead buf q body h e in
    let longer : parse_head (buf ++ more) ≡ complete q (body ++ more) =
      ap (λ b. parse_head (b ++ more)) r.text
      ∙ ap parse_head (request_text-append r.request body more)
      ∙ parse_head-text r.request (body ++ more) r.valid
      ∙ head_meaning-append r.request q body more r.means in
    (longer, rw (longer, e) (omega (arith, length-append buf more, length-append body more)))

-- In a buffer of bytes, a request that is complete has its body behind `header_end`, and stays
-- complete, with the same output and `header_end`, whatever bytes follow in the buffer.
pub parse_request-append :
    (buf more : List ℕ) (q : ParsedRequest) (body : List ℕ)
    → IsBytes buf
    → parse_request buf ≡ complete q body
    → (header_end buf + length body ≡ length buf)
      × (drop (header_end buf) buf ≡ body)
      × (parse_request (buf ++ more) ≡ complete q (body ++ more))
      × (header_end (buf ++ more) ≡ header_end buf)
unfolding parse_request
parse_request-append buf more q body h e =
    let c : (parse_head buf ≡ complete q body) × ((q.chunked && q.has_content_length) ≡ false) =
      check_framing-complete (parse_head buf) q body e in
    let b : (header_end buf + length body ≡ length buf) × (drop (header_end buf) buf ≡ body) =
      header_end-body buf q body h c.0 in
    let a : (parse_head (buf ++ more) ≡ complete q (body ++ more))
        × (header_end (buf ++ more) ≡ header_end buf) =
      parse_head-append buf more q body h c.0 in
    (b.0, b.1, ap check_framing a.0 ∙ (unfold check_framing in rw c.1), a.1)
