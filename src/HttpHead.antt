-- ===== src/HttpHead.antt =====
-- src/oai-gdbm/http_head.c: the header of a static repository, which libcurl hands to `parse_header`
-- line by line.
pub mod Callback
pub mod Fields
use srepod.Prelude.{
  ℕ, ◌+◌, ◌-◌, ◌==◌, Bool, false, not, ◌&&◌, ◌||◌, Option, none, some, List, [], ◌∷◌, ◌++◌,
  if◌then◌else◌, ◌>>=◌, ltb, leb, is_nil, scan_run, scan_int, scan_char, skip_space, ℤ, negsuc,
  length, take, drop, CString, codes, starts_with,
}

-- `struct head_struct`; `none` is a null pointer.
pub record HeadStruct : Type 0 where
  pub status_code : ℤ
  pub etag : Option CString
  pub date : Option CString
  pub content_encoding : Option CString
  pub content_type : Option CString
  pub last_modified : Option CString
  pub server : Option CString
  pub via : Option CString

abbrev pub minus_one : ℤ
minus_one = negsuc 0

abbrev pub max_head_size : ℕ
max_head_size = 256

-- `init_header`, and the status that `simple_header` sets
unfoldable pub init_header : HeadStruct
init_header = record {
  status_code = minus_one;
  etag = none;
  date = none;
  content_encoding = none;
  content_type = none;
  last_modified = none;
  server = none;
  via = none;
}

-- What a call of `parse_header` comes to: the struct and the bytes of the buffer as it leaves them, with
-- a return of the size or of -1; or an access out of bounds.
pub data Parsed : Type 0 where
  handled aborted : HeadStruct → List ℕ → Parsed
  out_of_bounds : Parsed

-- `sscanf(ptr, "HTTP/1.%*[01] %3d", ...)`, of a line that begins with "HTTP/1.0 " or "HTTP/1.1 "
unfoldable pub scan_status : List ℕ → Option ℤ
scan_status s = do
  let r = scan_run (λ c. c == b'0' || c == b'1') (length s) (drop 7 s)
  (n, _) ← scan_int 3 (skip_space r.1)
  some n

-- `[a-z0-9-]`
unfoldable pub is_etag_char : ℕ → Bool
is_etag_char c = (leb b'a' c && leb c b'z') || (leb b'0' c && leb c b'9') || c == b'-'

-- `[a-z/-]`
unfoldable pub is_type_char : ℕ → Bool
is_type_char c = (leb b'a' c && leb c b'z') || c == b'/' || c == b'-'

-- `sscanf(ptr, "Etag: \"%[a-z0-9-]\"", ...)`: white space is any or none.
unfoldable pub scan_etag : List ℕ → Option CString
unfolding is_etag_char
scan_etag s = do
  rest ← scan_char b'"' (skip_space (drop 5 s))
  let tag : CString = (scan_run is_etag_char (length s) rest).0
  if is_nil tag then none else some tag

-- `sscanf(ptr, "Content-Type: %[a-z/-]", ...)`
unfoldable pub scan_type : List ℕ → Option CString
unfolding is_type_char
scan_type s =
    let type : CString = (scan_run is_type_char (length s) (skip_space (drop 13 s))).0 in
    if is_nil type then none else some type

-- `memcpy(buffer, ptr + n, size - n - 2)` and the NUL behind; a size below 0 is a very large one.
unfoldable pub copy_value : ℕ → List ℕ → Option CString
copy_value n s = if ltb (length s) (n + 2) then none else some (take (length s - n - 2) (drop n s))

-- `memcpy(ptr, text, strlen(text))`, within the buffer
unfoldable pub overwrite : CString → List ℕ → Option (List ℕ)
overwrite text s =
    if ltb (length s) (length text) then none else some (text ++ drop (length text) s)

-- The three tests at the end are written with `memcpy`, whose result is `ptr` and never 0: they
-- overwrite the buffer, past the end of a short line, and are never met.
unfoldable pub unmet_tests : List ℕ → Option (List ℕ)
unfolding overwrite
unmet_tests s = do
  s₁ ← overwrite (codes "Last-Modified:") s
  s₂ ← overwrite (codes "Via:") s₁
  overwrite (codes "Content-Encoding:") s₂

unfoldable pub status_line : List ℕ → List ℕ → HeadStruct → Parsed
unfolding scan_status starts_with
status_line behind s hs =
    if not (starts_with s (codes "HTTP/1.0 ") || starts_with s (codes "HTTP/1.1 "))
    then aborted hs (s ++ behind)
    else elim (scan_status (s ++ behind)) [
      | none ↦ aborted hs (s ++ behind)
      | some n ↦ handled (record hs { status_code = n }) (s ++ behind)
    ]

unfoldable pub copied : Option CString → (CString → HeadStruct) → List ℕ → Parsed
copied none f s = out_of_bounds
copied (some v) f s = handled (f v) s

-- What `sscanf` has written into a buffer of `size` bytes.
unfoldable pub scanned : ℕ → Option CString → HeadStruct → (CString → HeadStruct) → List ℕ → Parsed
scanned size none hs f s = aborted hs s
scanned size (some v) hs f s = if ltb (length v) size then handled (f v) s else out_of_bounds

unfoldable pub other_line : List ℕ → List ℕ → HeadStruct → Parsed
unfolding unmet_tests
other_line behind s hs = elim (unmet_tests (s ++ behind)) [
  | none ↦ out_of_bounds
  | some b ↦ handled hs b
]

-- A buffer that `sscanf` does not fill is there, with bytes that were not initialised; nothing reads
-- them, and the field stays as it was here.
unfoldable pub field_line : List ℕ → List ℕ → HeadStruct → Parsed
unfolding scan_etag copy_value scan_type other_line starts_with copied scanned
field_line behind s hs =
    if starts_with s (codes "Etag:")
    then scanned (length s) (scan_etag (s ++ behind)) hs (λ v. record hs { etag = some v })
        (s ++ behind)
    else if starts_with s (codes "Date:")
    then copied (copy_value 6 s) (λ v. record hs { date = some v }) (s ++ behind)
    else if starts_with s (codes "Content-Type:")
    then scanned (length s) (scan_type (s ++ behind)) hs (λ v. record hs { content_type = some v })
        (s ++ behind)
    else if starts_with s (codes "Server:")
    then copied (copy_value 8 s) (λ v. record hs { server = some v }) (s ++ behind)
    else other_line behind s hs

abbrev pub is_minus_one : ℤ → Bool
is_minus_one (negsuc n) = n == 0
is_minus_one _ = false

-- A line `s`, which stands in a buffer with the bytes `behind` behind it.
unfoldable pub parse_header : List ℕ → List ℕ → HeadStruct → Parsed
unfolding status_line field_line
parse_header behind s hs =
    if ltb max_head_size (length s)
    then handled hs (s ++ behind)
    else if is_minus_one hs.status_code
    then status_line behind s hs
    else field_line behind s hs

-- A line that a server sends, with what its buffer has behind it.
pub record Line : Type 0 where
  pub text : List ℕ
  pub behind : List ℕ

-- `curl_easy_perform` with `parse_header` as its callback. An aborted call makes it fail: the inner
-- `none`. The outer one is an access out of bounds.
unfoldable pub perform : HeadStruct → List Line → Option (Option HeadStruct)
unfolding parse_header
perform hs [] = some (some hs)
perform hs (line ∷ lines) = elim (parse_header line.behind line.text hs) [
  | out_of_bounds ↦ none
  | aborted _ _ ↦ some none
  | handled hs' _ ↦ perform hs' lines
]

-- The buffers of `simple_header`: `"%s?%d"` and `"If-Modified-Since: %s"` with a NUL.
abbrev pub max_url_length : ℕ
max_url_length = 1024

-- `request` is what curl receives: `none` where the connection fails. `suffix` is the text of
-- `"?%d"` for a random number.
unfoldable pub simple_header :
    (CString → CString → Option (List Line))
    → CString
    → CString
    → CString
    → Option (Option HeadStruct)
unfolding init_header perform
simple_header request suffix url modification_time =
    let proxy_url : CString = url ++ suffix in
    let since : CString = codes "If-Modified-Since: " ++ modification_time in
    if leb max_url_length (length proxy_url) || leb max_url_length (length since)
    then none
    else elim (request proxy_url since) [
      | none ↦ some none
      | some lines ↦ perform init_header lines
    ]
