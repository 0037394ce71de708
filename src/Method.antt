-- ===== src/Method.antt =====
-- Route method keys and slots: include/rut/runtime/route_method.h.
pub mod Laws
use route_lang.Common.{ℕ, ◌==◌, ltb, if◌then◌else◌}

-- `HttpMethod` of include/rut/runtime/http_parser.h.
pub data HttpMethod : Type 0 where
  get post put delete patch head options connect trace unknown : HttpMethod

-- `LogHttpMethod` of include/rut/runtime/access_log.h.
pub data LogHttpMethod : Type 0 where
  get post put delete patch head options connect trace other : LogHttpMethod

abbrev pub method_slots : ℕ
method_slots = 10

abbrev pub method_invalid : ℕ
method_invalid = 0xff

abbrev pub slot_invalid : ℕ
slot_invalid = 0xffff_ffff

unfoldable pub route_method_key : HttpMethod → ℕ
route_method_key HttpMethod.get = 1
route_method_key HttpMethod.post = 2
route_method_key HttpMethod.put = 3
route_method_key HttpMethod.delete = 4
route_method_key HttpMethod.patch = 5
route_method_key HttpMethod.head = 6
route_method_key HttpMethod.options = 7
route_method_key HttpMethod.connect = 8
route_method_key HttpMethod.trace = 9
route_method_key HttpMethod.unknown = method_invalid

-- The overload on the method of a logged request.
pub log_method_key : LogHttpMethod → ℕ
log_method_key LogHttpMethod.get = 1
log_method_key LogHttpMethod.post = 2
log_method_key LogHttpMethod.put = 3
log_method_key LogHttpMethod.delete = 4
log_method_key LogHttpMethod.patch = 5
log_method_key LogHttpMethod.head = 6
log_method_key LogHttpMethod.options = 7
log_method_key LogHttpMethod.connect = 8
log_method_key LogHttpMethod.trace = 9
log_method_key LogHttpMethod.other = 0

unfoldable pub key_from_legacy_char : ℕ → ℕ
key_from_legacy_char c =
    if c == 0
    then 0
    else if c == b'G'
    then 1
    else if c == b'P'
    then 2
    else if c == b'D'
    then 4
    else if c == b'H'
    then 6
    else if c == b'O'
    then 7
    else if c == b'C'
    then 8
    else if c == b'T'
    then 9
    else c

unfoldable pub slot_from_key : ℕ → ℕ
slot_from_key key = if ltb key method_slots then key else slot_invalid

unfoldable pub route_method_slot : ℕ → ℕ
unfolding key_from_legacy_char slot_from_key
route_method_slot c = slot_from_key (key_from_legacy_char c)
