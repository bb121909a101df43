-- ===== src/Tests/Requests.antt =====
-- src/gateway.c: requests to a repository of one record in one format.
use srepod.Prelude.{
  ℕ, false, Option, none, some, [], ◌∷◌, ◌≡◌, ◌⊎◌, ◌↔◌, refl, CString, codes, pos, str_eq, length,
  if◌then◌else◌,
}
use srepod.Gateway.Commands.Bytes.{IsRecord, cmd_getrecord-IsRecord, IsList, cmd_list-IsList}
use srepod.Gateway.Commands.{
  Reply, printed, Request, cmd_identify, cmd_list, cmd_getrecord, checked, answer, list_reply,
  list_by_arguments, list_answer, format_check, dates_check, set_check, getrecord_reply,
  record_check, return_zero,
}
use srepod.Gateway.Env.{has_secure_env, method_check, has_short, path_info_check}
use srepod.Gateway.Keys.Complete.{has_valid_keys_iff}
use srepod.Gateway.Keys.Query.{Query, Answers, count_name, first_value}
use srepod.Gateway.Keys.Sound.{Distinct, IsValidQuery}
use srepod.Gateway.Keys.{
  Cgi, has_valid_keys, verb_check, arguments_check, scan_keys, value_check, is_one_of,
}
use srepod.Gateway.Main.Dispatch.{Answered, serve-Answered, cmd_error-template}
use srepod.Gateway.Main.{
  success, Exit, serve, serve_keys, serve_open, serve_verb, finish, dispatch, open_error,
  valid_arguments, cmd_error, shown_as, page,
}
use srepod.Gateway.Repository.{Repository, records}
use srepod.Gateway.Uri.{accepted, is_uri, uri_rest, is_legal, index, IsUriRest, is_uri_iff}
use srepod.Gateway.{pass, Environment, http_404}

abbrev cgi_of : Query → Cgi
cgi_of q = record {
  num_entries = length q;
  getnumentries = λ k. count_name k q;
  getentrystr = λ k. first_value k q;
}

cgi_of-Answers : (q : Query) → Answers (cgi_of q) q
cgi_of-Answers q = record { entries = refl; counts = λ k. refl; values = λ k. refl }

abbrev repository : Repository
repository = record {
  progname = codes "http://gateway";
  granularity = pos 0;
  num_of_sets = 0;
  identifier_exists = λ i p. str_eq i (codes "oai:1");
  num_metadataformats = λ i. pos 1;
  valid_token = λ t. false;
  valid_format = λ p. str_eq p (codes "oai_dc");
  identify = codes "<Identify/>";
  listmetadataformats = λ i. codes "<ListMetadataFormats/>";
  listsets = λ t. codes "<ListSets/>";
  list_count = λ a. 1;
  list = λ t a. codes "<ListRecords/>";
  get = λ i p. codes "<GetRecord/>";
}

abbrev request_of : Query → Request
request_of q = record {
  cgi = cgi_of q;
  repository = repository;
  path_info = none;
  date = codes "2002-06-30T23:59:00Z";
}

abbrev identify_query : Query
identify_query = (codes "verb", codes "Identify") ∷ []

abbrev list_query : Query
list_query = (codes "verb", codes "ListRecords") ∷ (codes "metadataPrefix", codes "oai_dc") ∷ []

abbrev record_query : Query
record_query =
    (codes "verb", codes "GetRecord")
    ∷ (codes "identifier", codes "oai:1")
    ∷ (codes "metadataPrefix", codes "oai_dc")
    ∷ []

abbrev output_of : Reply → CString
output_of (printed n s) = s
output_of _ = []

abbrev count_of : Reply → ℕ
count_of (printed n s) = n
count_of _ = 0

valid_arguments-Distinct : Distinct valid_arguments
unfolding is_one_of str_eq
valid_arguments-Distinct = (refl, (refl, (refl, (refl, (refl, (refl, (refl, tt)))))))

identify-keys : has_valid_keys (cgi_of identify_query) valid_arguments ≡ pass
unfolding has_valid_keys verb_check arguments_check scan_keys value_check is_one_of count_name
    first_value str_eq is_uri uri_rest is_legal index
identify-keys = refl

has_valid_keys_iff_example :
    (has_valid_keys (cgi_of identify_query) valid_arguments ≡ pass)
    ↔ IsValidQuery (cgi_of identify_query) valid_arguments identify_query
has_valid_keys_iff_example =
    has_valid_keys_iff (cgi_of identify_query) identify_query valid_arguments
      (cgi_of-Answers identify_query) valid_arguments-Distinct

list-run :
    cmd_list records (request_of list_query)
    ≡ printed
        (count_of (cmd_list records (request_of list_query)))
        (output_of (cmd_list records (request_of list_query)))
unfolding cmd_list list_reply list_by_arguments list_answer format_check dates_check set_check
    checked answer has_valid_keys verb_check arguments_check scan_keys value_check is_one_of
    count_name first_value str_eq is_uri uri_rest is_legal index
list-run = refl

cmd_list-IsList_example :
    IsList records
      (request_of list_query)
      (output_of (cmd_list records (request_of list_query)))
      (first_value (codes "resumptionToken") list_query)
cmd_list-IsList_example = cmd_list-IsList records (request_of list_query) _ _ list-run

record-run :
    cmd_getrecord (request_of record_query)
    ≡ printed 0 (output_of (cmd_getrecord (request_of record_query)))
unfolding cmd_getrecord getrecord_reply record_check return_zero checked answer has_valid_keys
    verb_check arguments_check scan_keys value_check is_one_of count_name first_value str_eq is_uri
    uri_rest is_legal index
record-run = refl

cmd_getrecord-IsRecord_example :
    IsRecord
      (request_of record_query)
      0
      (output_of (cmd_getrecord (request_of record_query)))
      (first_value (codes "identifier") record_query)
      (first_value (codes "metadataPrefix") record_query)
cmd_getrecord-IsRecord_example =
    cmd_getrecord-IsRecord (request_of record_query) 0
      (output_of (cmd_getrecord (request_of record_query))) record-run

is_uri_iff_example :
    (is_uri (codes "/a%2") ≡ accepted)
    ↔ (codes "/a%2" ≡ [] ⊎ (c : ℕ) × (t : CString) × (codes "/a%2" ≡ c ∷ t) × IsUriRest t)
is_uri_iff_example = is_uri_iff (codes "/a%2")

abbrev get_environment : Environment
get_environment name =
    if str_eq name (codes "REQUEST_METHOD")
    then some (codes "GET")
    else if str_eq name (codes "QUERY_STRING")
    then some (codes "verb=Identify")
    else none

get_environment-secure : has_secure_env get_environment ≡ pass
unfolding has_secure_env method_check has_short path_info_check str_eq
get_environment-secure = refl

abbrev exit_of : Option Exit → Exit
exit_of none = record { status = 0; output = [] }
exit_of (some x) = x

abbrev served : Option Exit
served = serve none (request_of identify_query) success

served-eq : served ≡ some (exit_of served)
unfolding serve serve_keys serve_open serve_verb finish dispatch open_error cmd_identify checked
    answer has_valid_keys verb_check arguments_check scan_keys value_check is_one_of count_name
    first_value str_eq is_uri uri_rest is_legal index
served-eq = refl

served-status : (exit_of served).status ≡ 0
unfolding serve serve_keys serve_open serve_verb finish dispatch open_error cmd_identify checked
    answer has_valid_keys verb_check arguments_check scan_keys value_check is_one_of count_name
    first_value str_eq is_uri uri_rest is_legal index
served-status = refl

serve-Answered_example : Answered (request_of identify_query) success (exit_of served)
serve-Answered_example =
    serve-Answered none (request_of identify_query) success (exit_of served) served-eq served-status

not_found-page : shown_as http_404 ≡ page (codes "404")
unfolding shown_as
not_found-page = refl

cmd_error-template_example :
    cmd_error (some (codes "$0 $1")) (request_of identify_query) http_404 (codes "Bad request")
    ≡ none
cmd_error-template_example =
    cmd_error-template (codes "$0 $1") (request_of identify_query) http_404 (codes "Bad request")
      (codes "404") not_found-page
