-- ===== src/Tests/Gdbms.antt =====
-- src/oai-gdbm/oai-gdbm.c: a list of the file, and what the file says of the gateway.
use srepod.Gateway.Commands.{
  Request, Reply, printed, checked, answer, format_check, dates_check, set_check, list_answer,
  list_by_arguments, list_reply, cmd_list,
}
use srepod.Gateway.Keys.{
  Cgi, has_valid_keys, verb_check, arguments_check, scan_keys, value_check, is_one_of,
}
use srepod.Gateway.Repository.{records}
use srepod.Gateway.Uri.{is_uri, uri_rest, is_legal, index}
use srepod.OaiGdbm.Interface.{repository_of, IsListing, cmd_list-IsListing}
use srepod.OaiGdbm.Describe.{Descriptions}
use srepod.OaiGdbm.Listing.{oai_list_count}
use srepod.OaiGdbm.{oai_valid_format}
use srepod.Prelude.{ℕ, ◌||◌, CString}
use srepod.Gateway.Repository.{ListArguments}
use srepod.OaiGdbm.{c_string, oai_identifier_exists}
use srepod.OaiGdbm.Agree.{list_entries-identifier_exists}
use srepod.OaiGdbm.Items.{count_id}
use srepod.OaiGdbm.Listing.{
  Entry, list_entries, visit_all, visit, visit_prefix, key_parts, scan_key, stamp_of, in_range,
  parse_bound,
}
use srepod.Prelude.{
  ◌&&◌, none, some, [], ◌∷◌, ◌≡◌, refl, if◌then◌else◌, is_some, is_space, codes, str_eq,
  starts_with, scan_run, scan_int, scan_char, skip_space, digits_value,
}
use srepod.Time.{parse_date, scan_day, make_date, tval_of}
use srepod.Tests.GdbmFiles.{
  look_up, names, file, oai_dc-IsFormat, id1-IsIdentifier, file-IsUnchanged, file-Named, narrow,
}

abbrev arguments : ListArguments
arguments = record {
  set = none;
  metadata_prefix = some (codes "oai_dc");
  from = none;
  until = none;
  token = none;
}

abbrev entry : Entry
entry = record { key = codes "xml:oai_dc:id1"; id = codes "id1"; stamp = codes "2003-01-01" }

file-list : list_entries file arguments ≡ some (some (entry ∷ []))
unfolding list_entries parse_bound visit_prefix visit_all visit key_parts scan_key stamp_of in_range
    look_up names starts_with str_eq c_string scan_run scan_char skip_space is_space parse_date
    scan_day make_date scan_int digits_value tval_of
file-list = refl

list_entries-identifier_exists_example : count_id (codes "id1") (entry ∷ []) ≡ (
    if oai_identifier_exists file (codes "id1") (some (codes "oai_dc"))
      && is_some (stamp_of file none none (codes "oai_dc") (codes "id1"))
    then 1
    else 0)
list_entries-identifier_exists_example =
    list_entries-identifier_exists file arguments (codes "oai_dc") (codes "id1") none none
      (entry ∷ []) file-IsUnchanged file-Named oai_dc-IsFormat id1-IsIdentifier refl
      (unfold parse_bound in refl) (unfold parse_bound in refl) file-list

-- A request for a list, of a query with a verb and a format.
abbrev cgi : Cgi
cgi = record {
  num_entries = 2;
  getnumentries =
      λ k. if str_eq k (codes "verb") || str_eq k (codes "metadataPrefix") then 1 else 0;
  getentrystr = λ k.
      if str_eq k (codes "verb")
      then some (codes "ListRecords")
      else if str_eq k (codes "metadataPrefix")
      then some (codes "oai_dc")
      else none;
}

abbrev descriptions : Descriptions
descriptions = record { gwbaseurl = none; gwadmin = none; friends = none; desc = none }

abbrev request : Request
request = record {
  cgi = cgi;
  repository = repository_of narrow file [] descriptions;
  path_info = none;
  date = codes "2002-06-30T23:59:00Z";
}

abbrev output_of : Reply → CString
output_of (printed n s) = s
output_of _ = []

abbrev count_of : Reply → ℕ
count_of (printed n s) = n
count_of _ = 0

list-printed :
    cmd_list records request
    ≡ printed (count_of (cmd_list records request)) (output_of (cmd_list records request))
unfolding cmd_list list_reply list_by_arguments checked has_valid_keys verb_check arguments_check
    scan_keys value_check is_one_of is_uri uri_rest is_legal index format_check dates_check
    set_check list_answer answer repository_of oai_valid_format oai_list_count list_entries
    parse_bound visit_prefix visit_all visit key_parts scan_key stamp_of in_range look_up names
    starts_with str_eq c_string scan_run scan_char skip_space is_space parse_date scan_day make_date
    scan_int digits_value tval_of
list-printed = refl

cmd_list-IsListing_example : IsListing file records request (output_of (cmd_list records request))
cmd_list-IsListing_example =
    cmd_list-IsListing narrow file [] descriptions records request refl
      (count_of (cmd_list records request)) (output_of (cmd_list records request)) list-printed
