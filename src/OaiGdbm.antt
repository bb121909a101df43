-- ===== src/OaiGdbm.antt =====
-- src/oai-gdbm/oai-gdbm.c: the repository behind the interface of the gateway, in a gdbm file. These
-- are the functions that look up one key.
pub mod Listing
pub mod Keys
pub mod Items
pub mod Agree
pub mod Interface
pub mod Open
pub mod Opened
pub mod Errors
pub mod Outdated
pub mod Describe
use srepod.Prelude.{
  ℕ, ◌-◌, ◌==◌, Bool, Option, none, some, List, [], ◌∷◌, ◌++◌, if◌then◌else◌, ltb, ℤ, pos, negsuc,
  scan_int, length, take, CString, codes, starts_with,
}

-- What the code asks of gdbm on an open file: `gdbm_fetch`, `gdbm_exists`, and the keys that
-- `gdbm_firstkey` and `gdbm_nextkey` go through.
pub record Gdbm : Type 0 where
  pub fetch : List ℕ → Option (List ℕ)
  pub exists : List ℕ → Bool
  pub keys : List (List ℕ)

-- The size of a pointer, and the bytes behind the NUL of a literal and behind a block of the heap.
pub record Machine : Type 0 where
  pub pointer_size : ℕ
  pub behind_literal : CString → List ℕ
  pub behind_block : List ℕ

-- Bytes as a C string.
unfoldable pub c_string : List ℕ → CString
c_string [] = []
c_string (c ∷ s) = if c == 0 then [] else c ∷ c_string s

-- `key.dptr = "..."; key.dsize = sizeof(key.dptr) - 1`
unfoldable pub literal_key : Machine → CString → List ℕ
literal_key m name = take (m.pointer_size - 1) (name ++ 0 ∷ m.behind_literal name)

abbrev pub max_url_length : ℕ
max_url_length = 1024

-- What `get_url` and `get_lmf` come to, with an array of `max_url_length` bytes and as many for `sz`.
pub data Got : Type 0 where
  missing overflow : Got
  got : CString → Got

unfoldable pub copy_data : Option (List ℕ) → Got
copy_data none = missing
copy_data (some value) =
    if ltb (length value) max_url_length then got (c_string value) else overflow

unfoldable pub get_url : Machine → Gdbm → Got
unfolding literal_key
get_url m g = copy_data (g.fetch (literal_key m (codes "frm")))

unfoldable pub get_lmf : Machine → Gdbm → Got
unfolding literal_key
get_lmf m g = copy_data (g.fetch (literal_key m (codes "lmf")))

-- `sscanf` reads on behind a value that is blank.
unfoldable pub get_status : Machine → Gdbm → Option ℤ
unfolding literal_key
get_status m g = elim (g.fetch (literal_key m (codes "lck"))) [
  | none ↦ none
  | some value ↦ elim (scan_int 1 (c_string (value ++ m.behind_block))) [
    | none ↦ none
    | some (status, _) ↦ some status
  ]
]

abbrev pub minus_one : ℤ
minus_one = negsuc 0

-- `memcmp(data.dptr, literal, data.dsize) == 0`
abbrev begins_literal : Machine → CString → List ℕ → Bool
begins_literal m literal value = starts_with (literal ++ 0 ∷ m.behind_literal literal) value

-- `DAY` is 0 and `SECOND` is 1.
unfoldable pub oai_granularity : Machine → Gdbm → ℤ
unfolding literal_key starts_with
oai_granularity m g = elim (g.fetch (literal_key m (codes "grn"))) [
  | none ↦ minus_one
  | some value ↦
      if begins_literal m (codes "YYYY-MM-DD") value
      then pos 0
      else if begins_literal m (codes "YYYY-MM-DDTHH:MM:SSZ") value
      then pos 1
      else minus_one
]

abbrev pub format_key : CString → CString
format_key name = codes "fmt:" ++ name

abbrev pub record_key : CString → CString → CString
record_key prefix identifier = codes "xml:" ++ (prefix ++ (b':' ∷ identifier))

abbrev pub date_key : CString → CString → CString
date_key prefix identifier = codes "dat:" ++ (prefix ++ (b':' ∷ identifier))

unfoldable pub oai_identifier_exists : Gdbm → CString → Option CString → Bool
oai_identifier_exists g identifier none = g.exists (format_key identifier)
oai_identifier_exists g identifier (some prefix) = g.exists (record_key prefix identifier)

unfoldable pub oai_valid_format : Gdbm → CString → Bool
oai_valid_format g prefix = g.exists (format_key prefix)

unfoldable pub oai_num_metadataformats : Machine → Gdbm → ℤ
unfolding literal_key
oai_num_metadataformats m g = elim (g.fetch (literal_key m (codes "nfm"))) [
  | none ↦ pos 0
  | some value ↦ elim (scan_int 2 (c_string value)) [ none ↦ pos 0 | some (n, _) ↦ n ]
]

-- What `oai_get` prints; the number that it returns is the length.
unfoldable pub oai_get : Gdbm → CString → CString → List ℕ
oai_get g identifier prefix = elim (g.fetch (record_key prefix identifier)) [
  | none ↦ []
  | some value ↦ codes "<GetRecord>" ++ (value ++ codes "</GetRecord>")
]
