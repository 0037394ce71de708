-- ===== src/Http/Response/Tests.antt =====
-- Responses as text.
use route_lang.Common.{ℕ, ◌≡◌, refl, arith, true, false, List, [], ◌∷◌, codes}
use route_lang.Http.{ParsedResponse, complete}
use route_lang.Http.Bytes.{str_ci_eq, parse_uint}
use route_lang.Http.Bytes.Compare.{IsBytes}
use route_lang.Http.Tables.{token_table, header_value_table}
use route_lang.Http.Scan.{scan_header_name, scan_header_value}
use route_lang.Http.Semantic.{
  apply_semantic_header_response, semantic, match_connection_response, is_text,
}
use route_lang.Http.Block.{skip_ows, skip_value_ows, trim_ows, trimmed, parse_headers}
use route_lang.Http.Block.Grammar.{Field, IsField}
use route_lang.Http.Response.{store_header_response, parse_response}
use route_lang.Http.Response.Laws.{
  Response, IsResponse, response_text, response_meaning, parse_response-text,
}
use route_lang.Http.Response.Sound.{ReadResponse, parse_response-ReadResponse}

abbrev closing : List ℕ
closing = codes "HTTP/1.1 404 Not Found\r\nContent-Length: 0\r\nConnection: close\r\n\r\n"

abbrev closing_parsed : ParsedResponse
closing_parsed = record {
  status_code = 404;
  headers =
      record { name = codes "Content-Length"; value = codes "0" }
      ∷ record { name = codes "Connection"; value = codes "close" }
      ∷ [];
  content_length = 0;
  has_content_length = true;
  chunked = false;
  keep_alive = false;
  connection_close = true;
}

parse-closing : parse_response closing ≡ complete closing_parsed []
unfolding parse_response parse_headers scan_header_name scan_header_value token_table
    header_value_table skip_value_ows skip_ows trimmed trim_ows apply_semantic_header_response
    semantic str_ci_eq parse_uint match_connection_response is_text store_header_response
parse-closing = refl

closing-IsBytes : IsBytes closing
closing-IsBytes = omega arith

parse_response-ReadResponse_example : ReadResponse closing closing_parsed []
parse_response-ReadResponse_example =
    parse_response-ReadResponse closing closing_parsed [] closing-IsBytes parse-closing

abbrev a_field : Field
a_field = record { name = codes "A"; before = codes " "; value = codes "b"; after = [] }

a_field-IsField : IsField a_field
unfolding token_table header_value_table
a_field-IsField = record {
  named = λ x. cc;
  token = (refl, tt);
  ows_before = (refl, tt);
  ows_after = tt;
  plain = (refl, tt);
  ends = refl;
  begins = refl;
}

abbrev ok_response : Response
ok_response = record { minor = false; code = 200; reason = codes " OK"; fields = a_field ∷ [] }

ok_response-IsResponse : IsResponse ok_response
ok_response-IsResponse = record {
  low = omega arith;
  high = omega arith;
  plain = (refl, (refl, (refl, tt)));
  valid = (a_field-IsField, tt);
}

parse_response-text_example :
    parse_response (response_text ok_response (codes "body"))
    ≡ response_meaning ok_response (codes "body")
parse_response-text_example = parse_response-text ok_response (codes "body") ok_response-IsResponse
