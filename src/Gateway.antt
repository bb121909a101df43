-- ===== src/Gateway.antt =====
-- src/gateway.c and src/gateway.h: the errors of the gateway, and what it asks of its environment.
pub mod Uri
pub mod Env
pub mod Keys
pub mod Dates
pub mod Repository
pub mod Commands
pub mod Main
use srepod.Prelude.{ℕ, Option, CString}

-- `enum error_type`, the values of `errcode`
pub data ErrorCode : Type 0 where
  bad_argument bad_resumption_token bad_verb cannot_disseminate_format : ErrorCode
  id_does_not_exist no_metadata_formats no_records_match no_set_hierarchy : ErrorCode
  http_400 http_404 http_500 http_501 http_502 http_503 http_504 http_505 unknown : ErrorCode

-- What a `has_` function comes to: it returns 1; it sets `errcode` and `errmsg` and returns 0; or it
-- reads past the end of a string.
pub data Check : Type 0 where
  pass : Check
  refuse : ErrorCode → CString → Check
  overread : Check

-- `getenv`
abbrev pub Environment : Type 0
Environment = CString → Option CString
