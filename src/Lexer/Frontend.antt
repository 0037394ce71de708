-- ===== src/Lexer/Frontend.antt =====
-- Tokens and diagnostics of the compiler's front end: include/rut/compiler/lexer.h and
-- include/rut/compiler/diagnostic.h.
use route_lang.Common.{ℕ, List}
use route_lang.Tokens.{Str}

pub data TokenType : Type 0 where
  ident string_lit int_lit float_lit dur_lit : TokenType
  kw_func kw_let kw_var kw_const kw_guard kw_case kw_error kw_protocol kw_impl kw_variant :
      TokenType
  kw_struct kw_route kw_match kw_if kw_else kw_for kw_in kw_return kw_upstream : TokenType
  kw_downstream kw_listen kw_tls kw_defaults kw_forward kw_websocket kw_import : TokenType
  kw_package kw_using kw_as kw_where kw_fire kw_notify kw_defer kw_submit kw_wait : TokenType
  kw_timer kw_init kw_shutdown kw_firewall kw_throttle kw_per kw_and kw_or kw_not : TokenType
  kw_nil kw_true kw_false : TokenType
  kw_get kw_post kw_put kw_delete kw_patch kw_head kw_options : TokenType
  regex_lit : TokenType
  l_paren r_paren l_brace r_brace l_bracket r_bracket colon comma dot arrow thin_arrow : TokenType
  eq eq_eq bang_eq lt gt lt_eq gt_eq plus minus star slash percent amp pipe caret tilde : TokenType
  bang question double_question at double_star underscore : TokenType
  eof error : TokenType

pub record Token : Type 0 where
  pub type : TokenType
  pub text : Str
  pub start : ℕ
  pub end : ℕ
  pub line : ℕ
  pub col : ℕ

abbrev pub max_tokens : ℕ
max_tokens = 512

pub data FrontendError : Type 0 where
  unexpected_char unterminated_string invalid_integer unexpected_token unexpected_eof :
      FrontendError
  too_many_tokens too_many_items invalid_status_code duplicate_upstream unknown_upstream :
      FrontendError
  out_of_memory invalid_regex unsupported_syntax : FrontendError

pub record Span : Type 0 where
  pub start : ℕ
  pub end : ℕ
  pub line : ℕ
  pub col : ℕ

pub record Diagnostic : Type 0 where
  pub code : FrontendError
  pub span : Span
  pub detail : Str

pub data LexResult : Type 0 where
  lexed : List Token → LexResult
  failed : Diagnostic → LexResult
