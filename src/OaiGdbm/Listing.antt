-- ===== src/OaiGdbm/Listing.antt =====
-- src/oai-gdbm/oai-gdbm.c: `oai_list`, which goes through all keys of the file.
use srepod.Gateway.Repository.{ListArguments, ListType, identifiers, records}
use srepod.OaiGdbm.{Gdbm, c_string, date_key}
use srepod.Prelude.{
  ℕ, ◌==◌, Bool, true, false, not, ◌&&◌, ◌||◌, Option, none, some, List, [], ◌∷◌, ◌++◌,
  if◌then◌else◌, ◌>>=◌, is_some, is_nil, is_space, skip_space, scan_run, scan_char, leb_ℤ, length,
  drop, CString, codes, starts_with, str_eq,
}
use srepod.Time.{DateStruct, parse_date}

-- `sscanf(keybuf, "xml:%[^:]:%s", fmtbuf, idbuf) == 2`, of a key that begins with "xml:"
unfoldable pub scan_key : CString → Option (CString × CString)
scan_key s =
    let (fmt, rest) = scan_run (λ c. not (c == b':')) (length s) (drop 4 s) in
    if is_nil fmt then none else do
      rest' ← scan_char b':' rest
      let id : CString = (scan_run (λ c. not (is_space c)) (length s) (skip_space rest')).0
      if is_nil id then none else some (fmt, id)

-- The format and the identifier of a key; any other key is passed over.
unfoldable pub key_parts : List ℕ → Option (CString × CString)
unfolding scan_key
key_parts key = if starts_with key (codes "xml:") then scan_key (c_string key) else none

-- The comparisons with `from` and `until`, where they are given.
unfoldable pub in_range : Option DateStruct → Option DateStruct → DateStruct → Bool
in_range from until item =
    elim from [ none ↦ true | some f ↦ leb_ℤ f.tval item.tval ]
    && elim until [ none ↦ true | some u ↦ leb_ℤ item.tval u.tval ]

-- An item that passes all tests: its key, its identifier, and its datestamp.
pub record Entry : Type 0 where
  pub key : List ℕ
  pub id : CString
  pub stamp : CString

-- The datestamp of a record, if it can be read and is in range.
unfoldable pub stamp_of :
    Gdbm → Option DateStruct → Option DateStruct → CString → CString → Option CString
unfolding in_range
stamp_of g from until prefix id = do
  value ← g.fetch (date_key prefix id)
  item ← parse_date (c_string value)
  if in_range from until item then some (c_string value) else none

-- A round of the loop.
unfoldable pub visit :
    Gdbm → Option DateStruct → Option DateStruct → CString → List ℕ → Option Entry
unfolding key_parts stamp_of
visit g from until prefix key = do
  (fmt, id) ← key_parts key
  stamp ← if str_eq prefix fmt then stamp_of g from until prefix id else none
  some (record { key = key; id = id; stamp = stamp })

unfoldable pub visit_all :
    Gdbm → Option DateStruct → Option DateStruct → CString → List (List ℕ) → List Entry
unfolding visit
visit_all g from until prefix [] = []
visit_all g from until prefix (key ∷ keys) =
    let rest = visit_all g from until prefix keys in
    elim (visit g from until prefix key) [ none ↦ rest | some e ↦ e ∷ rest ]

unfoldable pub any_parts : List (List ℕ) → Bool
unfolding key_parts
any_parts [] = false
any_parts (key ∷ keys) = is_some (key_parts key) || any_parts keys

-- Without a format the first key that has one is compared with a null pointer: `none`.
unfoldable pub visit_prefix :
    Gdbm → Option DateStruct → Option DateStruct → Option CString → Option (List Entry)
unfolding any_parts visit_all
visit_prefix g from until none = if any_parts g.keys then none else some []
visit_prefix g from until (some prefix) = some (visit_all g from until prefix g.keys)

-- `none` is a date that is given and cannot be parsed.
unfoldable pub parse_bound : Option CString → Option (Option DateStruct)
parse_bound none = some none
parse_bound (some s) = do d ← parse_date s; some (some d)

-- What the loop meets. The inner `none` is an argument for which the code returns 0 at once.
unfoldable pub list_entries : Gdbm → ListArguments → Option (Option (List Entry))
unfolding parse_bound visit_prefix
list_entries g args =
    if is_some args.token || is_some args.set then some none else elim (parse_bound args.from) [
      | none ↦ some none
      | some from ↦ elim (parse_bound args.until) [
        | none ↦ some none
        | some until ↦ visit_prefix g from until args.metadata_prefix >>= (λ es. some (some es))
      ]
    ]

-- `return_type` 0
unfoldable pub oai_list_count : Gdbm → ListArguments → Option ℕ
oai_list_count g args = do
  entries ← list_entries g args
  some (elim entries [ none ↦ 0 | some es ↦ length es ])

unfoldable pub header_text : Entry → List ℕ
header_text e =
    codes "<header><identifier>"
    ++ (e.id ++ (codes "</identifier><datestamp>" ++ (e.stamp ++ codes "</datestamp></header>")))

unfoldable pub record_text : Gdbm → Entry → List ℕ
record_text g e = elim (g.fetch e.key) [ none ↦ [] | some value ↦ value ]

unfoldable pub concat_map : (Entry → List ℕ) → List Entry → List ℕ
concat_map f [] = []
concat_map f (e ∷ es) = f e ++ concat_map f es

unfoldable pub listing_text : Gdbm → ListType → List Entry → List ℕ
unfolding concat_map
listing_text g identifiers es =
    codes "<ListIdentifiers>" ++ (concat_map header_text es ++ codes "</ListIdentifiers>")
listing_text g records es =
    codes "<ListRecords>" ++ (concat_map (record_text g) es ++ codes "</ListRecords>")

-- `return_type` 1 and 2: what is printed; the number that is returned is the length.
unfoldable pub oai_list : Gdbm → ListType → ListArguments → Option (List ℕ)
unfolding listing_text
oai_list g type args = do
  entries ← list_entries g args
  some (elim entries [ none ↦ [] | some es ↦ listing_text g type es ])
