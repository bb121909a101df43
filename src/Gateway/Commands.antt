-- ===== src/Gateway/Commands.antt =====
-- src/gateway.c: the `cmd_` functions, which answer one verb each.
pub mod Bytes
use srepod.Prelude.{
  ℕ, ◌+◌, Bool, true, false, not, ◌||◌, Option, none, some, List, [], ◌∷◌, ◌++◌, if◌then◌else◌,
  ◌==◌, CString, codes, length, is_some, ℤ, pos,
}
use srepod.Gateway.Dates.{has_valid_dates}
use srepod.Gateway.Keys.{Cgi, has_valid_keys}
use srepod.Gateway.Repository.{Repository, ListArguments, ListType, identifiers, records}
use srepod.Gateway.{
  Check, pass, refuse, overread, ErrorCode, bad_argument, bad_resumption_token,
  cannot_disseminate_format, id_does_not_exist, no_metadata_formats, no_records_match,
  no_set_hierarchy,
}

-- What a `cmd_` function comes to: it prints and returns a number; it sets `errcode` and `errmsg` and
-- returns -1, with nothing printed; or it reads past the end of a string.
pub data Reply : Type 0 where
  printed : ℕ → CString → Reply
  failed : ErrorCode → CString → Reply
  crashed : Reply

-- A request: the query, the repository, `PATH_INFO`, and the date of the answer.
pub record Request : Type 0 where
  pub cgi : Cgi
  pub repository : Repository
  pub path_info : Option CString
  pub date : CString

-- `if (! has_...) return(-1)`
unfoldable pub checked : Check → Reply → Reply
checked pass r = r
checked (refuse e m) r = failed e m
checked overread r = crashed

abbrev or_empty : Option CString → CString
or_empty none = []
or_empty (some s) = s

header_argument : CString → Option CString → CString
header_argument k none = []
header_argument k (some val) = codes " " ++ k ++ codes "=\"" ++ val ++ codes "\""

header_arguments : Cgi → List CString → CString
unfolding header_argument
header_arguments cgi [] = []
header_arguments cgi (k ∷ ks) = header_argument k (cgi.getentrystr k) ++ header_arguments cgi ks

-- `cmd_header`: what it prints
unfoldable pub cmd_header : Request → List CString → CString
unfolding header_arguments
cmd_header r valid_arguments =
    codes "Content-type: text/xml\r\n\r\n"
    ++ codes "<?xml version=\"1.0\" encoding=\"UTF-8\"?>\n"
    ++ codes "<OAI-PMH"
    ++ codes " xmlns=\"http://www.openarchives.org/OAI/2.0/\""
    ++ codes " xmlns:xsi=\"http://www.w3.org/2001/XMLSchema-instance\""
    ++ codes " xsi:schemaLocation=\"http://www.openarchives.org/OAI/2.0/ "
    ++ codes " http://www.openarchives.org/OAI/2.0/OAI-PMH.xsd\">"
    ++ codes "<responseDate>"
    ++ r.date
    ++ codes "</responseDate>"
    ++ codes "<request"
    ++ header_arguments r.cgi valid_arguments
    ++ codes ">"
    ++ r.repository.progname
    ++ or_empty r.path_info
    ++ codes "</request>"

abbrev pub cmd_footer : CString
cmd_footer = codes "</OAI-PMH>"

-- The three parts of an answer, and the sum of the numbers that they return.
unfoldable pub answer : Request → List CString → CString → Reply
answer r valid_arguments body =
    printed (length (cmd_header r valid_arguments) + length body + length cmd_footer)
      (cmd_header r valid_arguments ++ (body ++ cmd_footer))

abbrev pub identify_keys : List CString
identify_keys = codes "verb" ∷ []

unfoldable pub cmd_identify : Request → Reply
cmd_identify r =
    checked (has_valid_keys r.cgi identify_keys) (answer r identify_keys r.repository.identify)

abbrev pub listmetadataformats_keys : List CString
listmetadataformats_keys = codes "verb" ∷ codes "identifier" ∷ []

-- The two tests on the identifier, if there is one.
unfoldable pub identifier_check : Repository → Option CString → Check
identifier_check repo none = pass
identifier_check repo (some identifier) =
    if not (repo.identifier_exists identifier none)
    then refuse id_does_not_exist (codes "No such identifier")
    else elim (repo.num_metadataformats identifier) [
      | pos n ↦
          if n == 0 then refuse no_metadata_formats (codes "No metadataformats available") else pass
      | _ ↦ pass
    ]

unfoldable pub cmd_listmetadataformats : Request → Reply
cmd_listmetadataformats r =
    let identifier = r.cgi.getentrystr (codes "identifier") in
    checked (has_valid_keys r.cgi listmetadataformats_keys) (
      checked (identifier_check r.repository identifier)
        (answer r listmetadataformats_keys (r.repository.listmetadataformats identifier)))

abbrev pub listsets_keys : List CString
listsets_keys = codes "verb" ∷ codes "resumptionToken" ∷ []

unfoldable pub token_check : Repository → Option CString → Check
token_check repo none = pass
token_check repo (some token) =
    if repo.valid_token token
    then pass
    else refuse bad_resumption_token (codes "Illegal resumptionToken")

add_sets : ℕ → Reply → Reply
add_sets k (printed n s) = printed (k + n) s
add_sets k r = r

-- `n` holds the number of sets when the lengths are added to it.
unfoldable pub cmd_listsets : Request → Reply
unfolding add_sets
cmd_listsets r =
    let token = r.cgi.getentrystr (codes "resumptionToken") in
    checked (has_valid_keys r.cgi listsets_keys) (
      if r.repository.num_of_sets == 0
      then failed no_set_hierarchy (codes "No sets exists")
      else checked (token_check r.repository token) (
          add_sets r.repository.num_of_sets (answer r listsets_keys (r.repository.listsets token))))

abbrev pub list_token_keys : List CString
list_token_keys = codes "verb" ∷ codes "resumptionToken" ∷ []

abbrev pub list_keys : List CString
list_keys = codes "verb" ∷ codes "set" ∷ codes "from" ∷ codes "until" ∷ codes "metadataPrefix" ∷ []

-- The arguments of a list request without a token: all from the query.
abbrev pub list_arguments : Cgi → ListArguments
list_arguments cgi = record {
  set = cgi.getentrystr (codes "set");
  metadata_prefix = cgi.getentrystr (codes "metadataPrefix");
  from = cgi.getentrystr (codes "from");
  until = cgi.getentrystr (codes "until");
  token = none;
}

-- The arguments of a list request with a token: the other variables are still `NULL`.
abbrev pub token_arguments : CString → ListArguments
token_arguments token = record {
  set = none;
  metadata_prefix = none;
  from = none;
  until = none;
  token = some token;
}

unfoldable pub format_check : Repository → Option CString → Check
format_check repo none = refuse bad_argument (codes "Need a metadataPrefix")
format_check repo (some prefix) =
    if repo.valid_format prefix
    then pass
    else refuse cannot_disseminate_format (codes "Illegal metadataPrefix")

unfoldable pub dates_check : Repository → Option CString → Option CString → Check
dates_check repo none none = pass
dates_check repo from until = has_valid_dates repo.granularity from until

unfoldable pub set_check : Repository → Option CString → Check
set_check repo none = pass
set_check repo (some set) =
    if repo.num_of_sets == 0 then refuse no_set_hierarchy (codes "No sets exist") else pass

-- The end of `cmd_list`: the matches are counted before anything is printed.
unfoldable pub list_answer : ListType → Request → List CString → ListArguments → Reply
list_answer t r valid_arguments a =
    if r.repository.list_count a == 0
    then failed no_records_match (codes "No records match")
    else answer r valid_arguments (r.repository.list t a)

unfoldable pub list_by_token : ListType → Request → CString → Reply
list_by_token t r token = checked (has_valid_keys r.cgi list_token_keys) (
    checked (token_check r.repository (some token))
      (list_answer t r list_token_keys (token_arguments token)))

unfoldable pub list_by_arguments : ListType → Request → Reply
list_by_arguments t r =
    let a = list_arguments r.cgi in
    checked (has_valid_keys r.cgi list_keys) (
      checked (format_check r.repository a.metadata_prefix) (
        checked (dates_check r.repository a.from a.until)
          (checked (set_check r.repository a.set) (list_answer t r list_keys a))))

unfoldable pub list_reply : ListType → Request → Option CString → Reply
list_reply t r none = list_by_arguments t r
list_reply t r (some token) = list_by_token t r token

unfoldable pub cmd_list : ListType → Request → Reply
cmd_list t r = list_reply t r (r.cgi.getentrystr (codes "resumptionToken"))

abbrev pub getrecord_keys : List CString
getrecord_keys = codes "verb" ∷ codes "identifier" ∷ codes "metadataPrefix" ∷ []

-- The tests of `cmd_getrecord` that ask the repository.
unfoldable pub record_check : Repository → CString → CString → Check
record_check repo identifier prefix =
    if not (repo.valid_format prefix)
    then refuse cannot_disseminate_format (codes "Illegal metadataPrefix")
    else if not (repo.identifier_exists identifier none)
    then refuse id_does_not_exist (codes "No such identifier")
    else if not (repo.identifier_exists identifier (some prefix))
    then refuse cannot_disseminate_format (codes "Cannot disseminate format")
    else pass

-- The sum of the lengths is dropped: `cmd_getrecord` returns 0.
unfoldable pub return_zero : Reply → Reply
return_zero (printed n s) = printed 0 s
return_zero r = r

unfoldable pub getrecord_reply : Request → Option CString → Option CString → Reply
getrecord_reply r none prefix = failed bad_argument (codes "Need an identifier")
getrecord_reply r (some identifier) none = failed bad_argument (codes "Need a metadataPrefix")
getrecord_reply r (some identifier) (some prefix) =
    checked (record_check r.repository identifier prefix)
      (return_zero (answer r getrecord_keys (r.repository.get identifier prefix)))

unfoldable pub cmd_getrecord : Request → Reply
cmd_getrecord r = checked (has_valid_keys r.cgi getrecord_keys) (
    getrecord_reply r (r.cgi.getentrystr (codes "identifier"))
      (r.cgi.getentrystr (codes "metadataPrefix")))
