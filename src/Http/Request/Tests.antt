-- ===== src/Http/Request/Tests.antt =====
-- Requests as text.
use route_lang.Common.{
  ◌+◌, length, drop, ℕ, ◌≡◌, ◌≢◌, ◌↔◌, ◌^◌, ◌<◌, arith, refl, true, false, some, List, [], ◌∷◌,
  ◌++◌, codes,
}
use route_lang.Method.{HttpMethod}
use route_lang.Http.{http11, ParsedRequest, complete, error}
use route_lang.Http.Bytes.{str_ci_eq, parse_uint}
use route_lang.Http.Tables.{token_table, header_value_table, uri_table}
use route_lang.Http.Scan.{scan_uri, scan_header_name, scan_header_value}
use route_lang.Http.Semantic.{
  apply_semantic_header, semantic, match_connection, names_chunked, is_text,
}
use route_lang.Http.Block.{skip_ows, skip_value_ows, trim_ows, trimmed, parse_headers}
use route_lang.Http.Request.{parse_request, parse_method_direct, check_framing, store_header}
use route_lang.Canon.{finalize_path_canonical}
use route_lang.Http.Bytes.{ci_eq_bytes, value}
use route_lang.Http.Bytes.Compare.{IsBytes, str_ci_eq-bytes}
use route_lang.Http.Bytes.Decimal.{IsDigits, decimal, parse_uint-value}
use route_lang.Http.Tables.Tchar.{token_table-is_http_tchar}
use route_lang.Http.Validation.{is_http_tchar}
use route_lang.Http.Semantic.{match_connection_response}
use route_lang.Http.Semantic.Lists.{
  tokens, names, kept, match_connection_response-kept, names_chunked-names,
}
use route_lang.Http.Block.Grammar.{Field, IsField}
use route_lang.Http.Request.{header_end}
use route_lang.Http.Request.Laws.{Request, IsRequest, request_text, meaning, parse_request-text}
use route_lang.Http.Request.Laws.Sound.{ReadRequest, parse_request-ReadRequest}
use route_lang.Http.Request.Laws.Stable.{parse_request-append}
use route_lang.Http.Request.Framing.{Framed, parse_request-Framed}

abbrev get_text : List ℕ
get_text =
    codes
      "GET /a/?q HTTP/1.1\r\nHost:  x \r\ncontent-Length: 12\r\nConnection: a, Close\r\n\r\nbody"

abbrev get_parsed : ParsedRequest
get_parsed = record {
  method = HttpMethod.get;
  path = codes "/a/?q";
  path_canon = some (codes "a");
  version = http11;
  headers =
      record { name = codes "Host"; value = codes "x" }
      ∷ record { name = codes "content-Length"; value = codes "12" }
      ∷ record { name = codes "Connection"; value = codes "a, Close" }
      ∷ [];
  content_length = 12;
  keep_alive = false;
  chunked = false;
  has_content_length = true;
}

parse-get : parse_request get_text ≡ complete get_parsed (codes "body")
unfolding parse_request parse_headers scan_uri scan_header_name scan_header_value token_table
    uri_table header_value_table skip_value_ows skip_ows trimmed trim_ows apply_semantic_header
    semantic str_ci_eq parse_uint match_connection is_text finalize_path_canonical
    parse_method_direct check_framing store_header
parse-get = refl

get_text-IsBytes : IsBytes get_text
get_text-IsBytes = omega arith

-- The request that `get_text` is.
abbrev host_field : Field
host_field = record {
  name = codes "Host";
  before = codes "  ";
  value = codes "x";
  after = codes " ";
}

abbrev get_request : Request
get_request = record {
  method = HttpMethod.get;
  uri = codes "/a";
  minor = true;
  fields = host_field ∷ [];
}

host_field-IsField : IsField host_field
unfolding token_table header_value_table
host_field-IsField = record {
  named = λ x. cc;
  token = (refl, (refl, (refl, (refl, tt))));
  ows_before = (refl, (refl, tt));
  ows_after = (refl, tt);
  plain = (refl, tt);
  ends = refl;
  begins = refl;
}

get_request-IsRequest : IsRequest get_request
unfolding uri_table
get_request-IsRequest = record {
  known = λ x. cc;
  target = λ x. cc;
  plain = (refl, (refl, tt));
  valid = (host_field-IsField, tt);
}

parse_request-text_example :
    parse_request (request_text get_request (codes "rest")) ≡ meaning get_request (codes "rest")
parse_request-text_example = parse_request-text get_request (codes "rest") get_request-IsRequest

parse_request-ReadRequest_example : ReadRequest get_text get_parsed (codes "body")
parse_request-ReadRequest_example =
    parse_request-ReadRequest get_text get_parsed (codes "body") get_text-IsBytes parse-get

parse_request-Framed_example :
    (r : ReadRequest get_text get_parsed (codes "body")) × Framed r.request.fields get_parsed
parse_request-Framed_example =
    parse_request-Framed get_text get_parsed (codes "body") get_text-IsBytes parse-get

parse_request-append_example :
    (header_end get_text + length (codes "body") ≡ length get_text)
    × (drop (header_end get_text) get_text ≡ codes "body")
    × (parse_request (get_text ++ codes "GET") ≡ complete get_parsed (codes "body" ++ codes "GET"))
    × (header_end (get_text ++ codes "GET") ≡ header_end get_text)
parse_request-append_example =
    parse_request-append get_text (codes "GET") get_parsed (codes "body") get_text-IsBytes parse-get

-- Both framings are refused, with `header_end` set.
abbrev both_text : List ℕ
both_text = codes "GET / HTTP/1.1\r\nContent-Length: 1\r\nTransfer-Encoding: chunked\r\n\r\nb"

parse-both : (parse_request both_text ≡ error) × (header_end both_text ≡ 65)
unfolding parse_request header_end names_chunked parse_headers scan_uri scan_header_name
    scan_header_value token_table uri_table header_value_table skip_value_ows skip_ows trimmed
    trim_ows apply_semantic_header semantic str_ci_eq parse_uint match_connection is_text
    finalize_path_canonical parse_method_direct check_framing store_header
parse-both = (refl, refl)

str_ci_eq-bytes_example :
    str_ci_eq (codes "Content-LENGTH") (codes "content-length") 14
    ≡ ci_eq_bytes (codes "Content-LENGTH") (codes "content-length") 14
str_ci_eq-bytes_example =
    str_ci_eq-bytes (codes "Content-LENGTH") (codes "content-length") 14 (omega arith) (omega arith)
      (omega arith) (omega arith)

parse_uint-value_example : (parse_uint (codes "4294967295") ≡ value 4294967295) ↔ (
    (codes "4294967295" ≢ [])
    × IsDigits (codes "4294967295")
    × (decimal 0 (codes "4294967295") ≡ 4294967295)
    × (4294967295 < 2 ^ 32))
parse_uint-value_example = parse_uint-value (codes "4294967295") 4294967295 (omega arith)

match_connection_response-kept_example :
    match_connection_response (codes "x, Keep-Alive") (false, false)
    ≡ kept (tokens (codes "x, Keep-Alive")) (false, false)
match_connection_response-kept_example =
    match_connection_response-kept (codes "x, Keep-Alive") (false, false)

names_chunked-names_example :
    names_chunked (codes "gzip, chunked") ≡ names (codes "chunked") (tokens (codes "gzip, chunked"))
names_chunked-names_example = names_chunked-names (codes "gzip, chunked")

token_table-is_http_tchar_example : token_table b'~' ≡ is_http_tchar b'~'
token_table-is_http_tchar_example = token_table-is_http_tchar b'~' (omega arith)
