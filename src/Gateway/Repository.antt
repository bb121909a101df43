-- ===== src/Gateway/Repository.antt =====
-- src/oai-gdbm/oai-interface.h: the interface through which the gateway reads a repository. What a
-- function prints is its value here, and the number that it returns is the length of that.
use srepod.Prelude.{ℕ, Bool, Option, CString, ℤ}

-- `set`, `metadataPrefix`, `from`, `until` and `resumptionToken` of `oai_list`
pub record ListArguments : Type 0 where
  pub set : Option CString
  pub metadata_prefix : Option CString
  pub from : Option CString
  pub until : Option CString
  pub token : Option CString

-- `IDENTIFIERS` and `RECORDS`
pub data ListType : Type 0 where
  identifiers records : ListType

pub record Repository : Type 0 where
  pub progname : CString
  pub granularity : ℤ
  pub num_of_sets : ℕ
  pub identifier_exists : CString → Option CString → Bool
  pub num_metadataformats : CString → ℤ
  pub valid_token : CString → Bool
  pub valid_format : CString → Bool
  pub identify : CString
  pub listmetadataformats : Option CString → CString
  pub listsets : Option CString → CString
  pub list_count : ListArguments → ℕ
  pub list : ListType → ListArguments → CString
  pub get : CString → CString → CString
