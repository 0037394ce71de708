-- ===== src/Http.antt =====
-- The HTTP/1 parser: include/rut/runtime/http_parser.h and src/runtime/http_parser.cc, with the
-- scalar scanners of src/runtime/simd/scalar.cc. A buffer is the list of its bytes, and a position
-- in it the bytes from there on; a `Str` that points into the buffer is the list of its bytes.
pub mod Bytes
pub mod Validation
pub mod Tables
pub mod Scan
pub mod Semantic
pub mod Block
pub mod Request
pub mod Response
use route_lang.Common.{ℕ, Bool, true, false, Option, none, some, List, [], ◌∷◌, codes}
use route_lang.Method.{HttpMethod}
use route_lang.Tokens.{Str}

pub data HttpVersion : Type 0 where
  http10 http11 unknown : HttpVersion

pub record Header : Type 0 where
  pub name : Str
  pub value : Str

abbrev pub max_headers : ℕ
max_headers = 64

-- `path_canon` is `none` for the view `{nullptr, 0}`, and `headers` are the first `header_count`
-- entries of the array.
pub record ParsedRequest : Type 0 where
  pub method : HttpMethod
  pub path : Str
  pub path_canon : Option Str
  pub version : HttpVersion
  pub headers : List Header
  pub content_length : ℕ
  pub keep_alive : Bool
  pub chunked : Bool
  pub has_content_length : Bool

-- `ParsedRequest::reset`.
abbrev pub empty_request : ParsedRequest
empty_request = record {
  method = HttpMethod.unknown;
  path = [];
  path_canon = none;
  version = HttpVersion.unknown;
  headers = [];
  content_length = 0;
  keep_alive = false;
  chunked = false;
  has_content_length = false;
}

pub record ParsedResponse : Type 0 where
  pub status_code : ℕ
  pub headers : List Header
  pub content_length : ℕ
  pub has_content_length : Bool
  pub chunked : Bool
  pub keep_alive : Bool
  pub connection_close : Bool

-- `ParsedResponse::reset`.
abbrev pub empty_response : ParsedResponse
empty_response = record {
  status_code = 0;
  headers = [];
  content_length = 0;
  has_content_length = false;
  chunked = false;
  keep_alive = true;
  connection_close = false;
}

-- `ParseStatus` of a call of `parse`: on Complete with what it wrote and the bytes behind
-- `header_end`. What the output holds after Incomplete or Error is left out.
pub data Parsed {ℓ} (A : Type ℓ) : Type ℓ where
  complete : A → List ℕ → Parsed A
  incomplete : Parsed A
  error : Parsed A

unfoldable pub http_method_str : HttpMethod → Str
http_method_str HttpMethod.get = codes "GET"
http_method_str HttpMethod.post = codes "POST"
http_method_str HttpMethod.put = codes "PUT"
http_method_str HttpMethod.delete = codes "DELETE"
http_method_str HttpMethod.patch = codes "PATCH"
http_method_str HttpMethod.head = codes "HEAD"
http_method_str HttpMethod.options = codes "OPTIONS"
http_method_str HttpMethod.connect = codes "CONNECT"
http_method_str HttpMethod.trace = codes "TRACE"
http_method_str HttpMethod.unknown = codes "UNKNOWN"
