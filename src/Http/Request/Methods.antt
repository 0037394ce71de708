-- ===== src/Http/Request/Methods.antt =====
-- `parse_method_direct` reads the nine methods.
use route_lang.Common.{
  ℕ, zero, suc, ◌≤◌, ◌<◌, ◌≡◌, ◌≢◌, ◌==◌, ◌&&◌, refl, true, List, [], ◌∷◌, ◌++◌, some, length, drop,
  get_or, arith, inl, inr, Bool-cases, codes, ltb,
}
use route_lang.Method.{HttpMethod}
use route_lang.Http.{http_method_str}
use route_lang.Http.Bytes.{load}
use route_lang.Http.Bytes.Compare.{IsBytes}
use route_lang.Http.Request.{parse_method_direct, starts, byte_at}

-- A word is equal to another exactly if all its bytes are.
pub load-injective :
    (a b : List ℕ) → IsBytes a → IsBytes b → length a ≡ length b → load a ≡ load b → a ≡ b
unfolding load
load-injective [] [] h k e q = refl
load-injective [] (y ∷ b) h k e q = absurd (omega arith)
load-injective (x ∷ a) [] h k e q = absurd (omega arith)
load-injective (x ∷ a) (y ∷ b) h k e q =
    let first : x ≡ y = omega arith in
    let others : a ≡ b = load-injective a b h.1 k.1 (omega arith) (omega arith) in cc

word_lem :
    (a b c d x y z w : ℕ)
    → IsBytes (a ∷ b ∷ c ∷ d ∷ [])
    → IsBytes (x ∷ y ∷ z ∷ w ∷ [])
    → (load (a ∷ b ∷ c ∷ d ∷ []) == load (x ∷ y ∷ z ∷ w ∷ [])) ≡ true
    → (a ≡ x) × (b ≡ y) × (c ≡ z) × (d ≡ w)
word_lem a b c d x y z w h k e =
    let q : a ∷ b ∷ c ∷ d ∷ [] ≡ x ∷ y ∷ z ∷ w ∷ [] =
      load-injective (a ∷ b ∷ c ∷ d ∷ []) (x ∷ y ∷ z ∷ w ∷ []) h k refl (ground (arith, e)) in
    (ground (arith, q), ground (arith, q), ground (arith, q), ground (arith, q))

-- Bytes behind the word.
head_lem : (t : List ℕ) (c : ℕ) → 0 < c → (get_or t 0 0 == c) ≡ true → t ≡ c ∷ drop 1 t
head_lem [] c p h = absurd (ground arith)
head_lem (x ∷ t) c p h = ground arith

drop-drop : (t : List ℕ) (k : ℕ) → drop 1 (drop k t) ≡ drop (suc k) t
drop-drop [] zero = refl
drop-drop [] (suc k) = refl
drop-drop (x ∷ t) zero = refl
drop-drop (x ∷ t) (suc k) = drop-drop t k

get_or-drop : (t : List ℕ) (k : ℕ) → get_or (drop k t) 0 0 ≡ get_or t k 0
get_or-drop [] zero = refl
get_or-drop [] (suc k) = refl
get_or-drop (x ∷ t) zero = refl
get_or-drop (x ∷ t) (suc k) = get_or-drop t k

four_lem :
    (t : List ℕ) (x y z w : ℕ)
    → IsBytes t
    → IsBytes (x ∷ y ∷ z ∷ w ∷ [])
    → 4 ≤ length t
    → starts t (x ∷ y ∷ z ∷ w ∷ []) ≡ true
    → t ≡ x ∷ y ∷ z ∷ w ∷ drop 4 t
four_lem [] x y z w h k le e = absurd (omega arith)
four_lem (a ∷ []) x y z w h k le e = absurd (omega arith)
four_lem (a ∷ b ∷ []) x y z w h k le e = absurd (omega arith)
four_lem (a ∷ b ∷ c ∷ []) x y z w h k le e = absurd (omega arith)
four_lem (a ∷ b ∷ c ∷ d ∷ t) x y z w h k le e = ground (arith, word_lem a b c d x y z w)

-- A method and its space are read.
pub parse_method_direct-text :
    (m : HttpMethod) (rest : List ℕ)
    → m ≢ HttpMethod.unknown
    → parse_method_direct (http_method_str m ++ (b' ' ∷ rest)) ≡ some (m, rest)
unfolding parse_method_direct http_method_str load
parse_method_direct-text HttpMethod.get rest h = ground arith
parse_method_direct-text HttpMethod.post rest h = ground arith
parse_method_direct-text HttpMethod.put rest h = ground arith
parse_method_direct-text HttpMethod.delete rest h = ground arith
parse_method_direct-text HttpMethod.patch rest h = ground arith
parse_method_direct-text HttpMethod.head rest h = ground arith
parse_method_direct-text HttpMethod.options rest h = ground arith
parse_method_direct-text HttpMethod.connect rest h = ground arith
parse_method_direct-text HttpMethod.trace rest h = ground arith
parse_method_direct-text HttpMethod.unknown rest h = absurd (h refl)

abbrev ReadMethod : List ℕ → HttpMethod → List ℕ → Type 0
ReadMethod buf m rest = (m ≢ HttpMethod.unknown) × (buf ≡ http_method_str m ++ (b' ' ∷ rest))

-- Nothing else is.
pub parse_method_direct-ReadMethod :
    (buf : List ℕ) (m : HttpMethod) (rest : List ℕ)
    → IsBytes buf
    → parse_method_direct buf ≡ some (m, rest)
    → ReadMethod buf m rest
unfolding parse_method_direct http_method_str
parse_method_direct-ReadMethod [] m rest h e = absurd (ground arith)
parse_method_direct-ReadMethod (a ∷ []) m rest h e = absurd (ground arith)
parse_method_direct-ReadMethod (a ∷ b ∷ []) m rest h e = absurd (ground arith)
parse_method_direct-ReadMethod (a ∷ b ∷ c ∷ []) m rest h e = absurd (ground arith)
parse_method_direct-ReadMethod (a ∷ b ∷ c ∷ d ∷ t) m rest h e =
    elim (Bool-cases (starts (a ∷ b ∷ c ∷ d ∷ t) (codes "GET "))) [
      | inl is_get ↦ ground (arith, is_get, word_lem a b c d b'G' b'E' b'T' b' ')
      | inr no_get ↦ elim (Bool-cases (starts (a ∷ b ∷ c ∷ d ∷ t) (codes "PUT "))) [
        | inl is_put ↦ ground (arith, is_put, no_get, word_lem a b c d b'P' b'U' b'T' b' ')
        | inr no_put ↦ elim (Bool-cases (ltb (length (a ∷ b ∷ c ∷ d ∷ t)) 5)) [
          | inl is_short5 ↦ absurd (ground (arith, is_short5, no_get, no_put))
          | inr no_short5 ↦
              elim (Bool-cases
                (starts (a ∷ b ∷ c ∷ d ∷ t) (codes "POST") && byte_at (a ∷ b ∷ c ∷ d ∷ t) 4 b' ')) [
                  | inl is_post ↦ ground (
                    arith,
                    is_post,
                    no_get,
                    no_put,
                    no_short5,
                    word_lem a b c d b'P' b'O' b'S' b'T',
                    head_lem t b' ',
                  )
                  | inr no_post ↦
                      elim (Bool-cases (
                        starts (a ∷ b ∷ c ∷ d ∷ t) (codes "HEAD")
                        && byte_at (a ∷ b ∷ c ∷ d ∷ t) 4 b' ')) [
                          | inl is_head ↦ ground (
                            arith,
                            is_head,
                            no_get,
                            no_put,
                            no_short5,
                            no_post,
                            word_lem a b c d b'H' b'E' b'A' b'D',
                            head_lem t b' ',
                          )
                          | inr no_head ↦ elim (Bool-cases (ltb (length (a ∷ b ∷ c ∷ d ∷ t)) 6)) [
                            | inl is_short6 ↦ absurd (
                                ground
                                  (arith, is_short6, no_get, no_put, no_short5, no_post, no_head))
                            | inr no_short6 ↦
                                elim (Bool-cases (
                                  starts (a ∷ b ∷ c ∷ d ∷ t) (codes "PATC")
                                  && (byte_at (a ∷ b ∷ c ∷ d ∷ t) 4 b'H'
                                      && byte_at (a ∷ b ∷ c ∷ d ∷ t) 5 b' '))) [
                                        | inl is_patch ↦ ground (
                                          arith,
                                          is_patch,
                                          no_get,
                                          no_put,
                                          no_short5,
                                          no_post,
                                          no_head,
                                          no_short6,
                                          word_lem a b c d b'P' b'A' b'T' b'C',
                                          head_lem t b'H',
                                          head_lem (drop 1 t) b' ',
                                          get_or-drop t 1,
                                          drop-drop t 1,
                                        )
                                        | inr no_patch ↦
                                            elim (Bool-cases (
                                              starts (a ∷ b ∷ c ∷ d ∷ t) (codes "TRAC")
                                              && (byte_at (a ∷ b ∷ c ∷ d ∷ t) 4 b'E'
                                                  && byte_at (a ∷ b ∷ c ∷ d ∷ t) 5 b' '))) [
                                                    | inl is_trace ↦ ground (
                                                      arith,
                                                      is_trace,
                                                      no_get,
                                                      no_put,
                                                      no_short5,
                                                      no_post,
                                                      no_head,
                                                      no_short6,
                                                      no_patch,
                                                      word_lem a b c d b'T' b'R' b'A' b'C',
                                                      head_lem t b'E',
                                                      head_lem (drop 1 t) b' ',
                                                      get_or-drop t 1,
                                                      drop-drop t 1,
                                                    )
                                                    | inr no_trace ↦
                                                        elim (Bool-cases
                                                          (ltb (length (a ∷ b ∷ c ∷ d ∷ t)) 7)) [
                                                            | inl is_short7 ↦ absurd (
                                                              ground (
                                                              arith, is_short7, no_get, no_put,
                                                              no_short5, no_post, no_head,
                                                              no_short6, no_patch, no_trace,
                                                              ))
                                                            | inr no_short7 ↦
                                                              elim (Bool-cases (
                                                              starts (a ∷ b ∷ c ∷ d ∷ t)
                                                              (codes "DELE")
                                                              && (byte_at (a ∷ b ∷ c ∷ d ∷ t) 4 b'T'
                                                              && (byte_at (a ∷ b ∷ c ∷ d ∷ t) 5 b'E'
                                                              && byte_at (a ∷ b ∷ c ∷ d ∷ t) 6
                                                              b' ')))) [
                                                                | inl is_delete ↦ ground (
                                                                arith,
                                                                is_delete,
                                                                no_get,
                                                                no_put,
                                                                no_short5,
                                                                no_post,
                                                                no_head,
                                                                no_short6,
                                                                no_patch,
                                                                no_trace,
                                                                no_short7,
                                                                word_lem a b c d b'D' b'E' b'L'
                                                                b'E',
                                                                head_lem t b'T',
                                                                head_lem (drop 1 t) b'E',
                                                                head_lem (drop 2 t) b' ',
                                                                get_or-drop t 1,
                                                                get_or-drop t 2,
                                                                drop-drop t 1,
                                                                drop-drop t 2,
                                                                )
                                                                | inr no_delete ↦
                                                                  elim (Bool-cases (
                                                                  ltb (length (a ∷ b ∷ c ∷ d ∷ t))
                                                                  8)) [
                                                                    | inl is_short8 ↦ absurd (
                                                                      ground (
                                                                      arith, is_short8, no_get,
                                                                      no_put, no_short5, no_post,
                                                                      no_head, no_short6, no_patch,
                                                                      no_trace, no_short7,
                                                                      no_delete,
                                                                      ))
                                                                    | inr no_short8 ↦
                                                                      elim (Bool-cases (
                                                                      starts (a ∷ b ∷ c ∷ d ∷ t)
                                                                      (codes "OPTI")
                                                                      && starts t (codes "ONS "))) [
                                                                        | inl is_options ↦ ground (
                                                                        arith,
                                                                        is_options,
                                                                        no_get,
                                                                        no_put,
                                                                        no_short5,
                                                                        no_post,
                                                                        no_head,
                                                                        no_short6,
                                                                        no_patch,
                                                                        no_trace,
                                                                        no_short7,
                                                                        no_delete,
                                                                        no_short8,
                                                                        word_lem a b c d b'O' b'P'
                                                                        b'T' b'I',
                                                                        four_lem t b'O' b'N' b'S'
                                                                        b' ',
                                                                        )
                                                                        | inr no_options ↦
                                                                          elim (Bool-cases (
                                                                          starts (a ∷ b ∷ c ∷ d ∷ t)
                                                                          (codes "CONN")
                                                                          && starts t
                                                                          (codes "ECT "))) [
                                                                            | inl is_connect ↦
                                                                              ground (
                                                                              arith,
                                                                              is_connect,
                                                                              no_get,
                                                                              no_put,
                                                                              no_short5,
                                                                              no_post,
                                                                              no_head,
                                                                              no_short6,
                                                                              no_patch,
                                                                              no_trace,
                                                                              no_short7,
                                                                              no_delete,
                                                                              no_short8,
                                                                              no_options,
                                                                              word_lem a b c d b'C'
                                                                              b'O' b'N' b'N',
                                                                              four_lem t b'E' b'C'
                                                                              b'T' b' ',
                                                                              )
                                                                            | inr no_connect ↦
                                                                              absurd (
                                                                              ground (
                                                                              arith, no_get, no_put,
                                                                              no_short5, no_post,
                                                                              no_head, no_short6,
                                                                              no_patch, no_trace,
                                                                              no_short7, no_delete,
                                                                              no_short8, no_options,
                                                                              no_connect,
                                                                              ))
                                                                          ]
                                                                      ]
                                                                  ]
                                                              ]
                                                          ]
                                                  ]
                                      ]
                          ]
                        ]
                ]
        ]
      ]
    ]
