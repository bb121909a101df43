-- ===== src/Gateway/Main.antt =====
-- src/gateway.c: `main` and `cmd_error`.
pub mod Dispatch
use srepod.Prelude.{
  ℕ, ◌+◌, Bool, true, false, not, Option, none, some, List, [], ◌∷◌, ◌++◌, if◌then◌else◌, ◌==◌,
  ◌>>=◌, CString, codes, str_eq,
}
use srepod.Gateway.Commands.{
  Reply, printed, failed, crashed, Request, cmd_header, cmd_footer, cmd_identify,
  cmd_listmetadataformats, cmd_listsets, cmd_list, cmd_getrecord,
}
use srepod.Gateway.Env.{has_secure_env}
use srepod.Gateway.Keys.{Cgi, has_valid_keys}
use srepod.Gateway.Repository.{identifiers, records}
use srepod.Gateway.{
  Check, pass, refuse, overread, Environment, ErrorCode, bad_argument, bad_resumption_token,
  bad_verb, cannot_disseminate_format, id_does_not_exist, no_metadata_formats, no_records_match,
  no_set_hierarchy, http_400, http_404, http_500, http_501, http_502, http_503, http_504, http_505,
  unknown,
}
use srepod.Template.{args_template, parse_template, loose}

-- `enum open_error_types` of src/oai-gdbm/oai-gdbm.h
pub data OpenResult : Type 0 where
  success gateway_locked invalid_repository network_error access_error : OpenResult
  no_such_gateway configuration_error internal_error : OpenResult

-- How `cmd_error` shows an error: as an OAI answer under a name, or as a page with a status.
pub data Shown : Type 0 where
  oai : CString → Shown
  page : CString → Shown

unfoldable pub shown_as : ErrorCode → Shown
shown_as bad_argument = oai (codes "badArgument")
shown_as bad_resumption_token = oai (codes "badResumptionToken")
shown_as bad_verb = oai (codes "badVerb")
shown_as cannot_disseminate_format = oai (codes "cannotDisseminateFormat")
shown_as id_does_not_exist = oai (codes "idDoesNotExist")
shown_as no_metadata_formats = oai (codes "noMetadataFormats")
shown_as no_records_match = oai (codes "noRecordsMatch")
shown_as no_set_hierarchy = oai (codes "noSetHierarchy")
shown_as http_400 = page (codes "400")
shown_as http_404 = page (codes "404")
shown_as http_500 = page (codes "500")
shown_as http_501 = page (codes "501")
shown_as http_502 = page (codes "502")
shown_as http_503 = page (codes "503")
shown_as http_504 = page (codes "504")
shown_as http_505 = page (codes "505")
shown_as unknown = page (codes "500")

-- The status line; `ERR_UNKNOWN` has one of its own, and only 503 asks for a later visit.
unfoldable pub status_lines : ErrorCode → CString → CString → CString
status_lines unknown code message = codes "Status: 500 - Unknown error\r\n"
status_lines http_503 code message =
    codes "Status: " ++ code ++ codes " - " ++ message ++ codes "\r\nRetry-After: 60\r\n"
status_lines _ code message = codes "Status: " ++ code ++ codes " - " ++ message ++ codes "\r\n"

-- The body of a page: the operator's template, of which `file` is the content, or a page of the
-- gateway's own. `none` is a read past the end of the array of arguments.
unfoldable pub page_body : Option CString → CString → CString → Option CString
page_body (some file) code message =
    parse_template loose (args_template 2 (some code ∷ some message ∷ [])) file
page_body none code message = some (
    codes "<html><head><title>Server error "
    ++ code
    ++ codes "</title></head><body><h1>Server error "
    ++ code
    ++ codes "</h1>Sorry - "
    ++ message
    ++ codes ".</body></html>")

-- `cmd_error`; `error_html` is the content of the file that GWERRORHTML names, if it is set.
unfoldable pub cmd_error : Option CString → Request → ErrorCode → CString → Option CString
cmd_error error_html r errcode message = elim (shown_as errcode) [
  | oai name ↦ some (
      cmd_header r []
      ++ codes "<error code=\""
      ++ name
      ++ codes "\">"
      ++ message
      ++ codes "</error>"
      ++ cmd_footer)
  | page code ↦ do
    body ← page_body error_html code message
    some (status_lines errcode code message ++ codes "Content-type: text/html\r\n\r\n" ++ body)
]

-- The end of a run: the exit status and what was printed. `none` in place of it is a crash.
pub record Exit : Type 0 where
  pub status : ℕ
  pub output : CString

abbrev pub exit_error : Option CString → Request → ErrorCode → CString → Option Exit
exit_error error_html r errcode message = do
  out ← cmd_error error_html r errcode message
  some (record { status = 1; output = out })

-- The `switch` on a repository that does not open.
unfoldable pub open_error : OpenResult → Option (ErrorCode × CString)
open_error success = none
open_error gateway_locked =
    some
      (http_503, codes "Static repository not up to date, processing the update, come back later")
open_error invalid_repository = some (http_502, codes "Static repository is not valid")
open_error network_error = some (http_504, codes "Network timeout")
open_error access_error = some (http_504, codes "Repository is not available")
open_error no_such_gateway = some (http_404, codes "Repository is unknown")
open_error configuration_error = some (http_502, codes "Gateway configuration error")
open_error internal_error = some (http_502, codes "Internal gateway error")

-- A verb that is none of the six leaves `ret` at `OPEN_SUCCESS`, with nothing printed.
unfoldable pub dispatch : Request → CString → Reply
dispatch r verb =
    if str_eq verb (codes "Identify")
    then cmd_identify r
    else if str_eq verb (codes "ListSets")
    then cmd_listsets r
    else if str_eq verb (codes "ListMetadataFormats")
    then cmd_listmetadataformats r
    else if str_eq verb (codes "ListIdentifiers")
    then cmd_list identifiers r
    else if str_eq verb (codes "ListRecords")
    then cmd_list records r
    else if str_eq verb (codes "GetRecord")
    then cmd_getrecord r
    else printed 0 []

unfoldable pub finish : Option CString → Request → Reply → Option Exit
finish error_html r (printed n s) = some (record { status = 0; output = s })
finish error_html r (failed e m) = exit_error error_html r e m
finish error_html r crashed = none

abbrev pub valid_arguments : List CString
valid_arguments =
    codes "verb"
    ∷ codes "from"
    ∷ codes "until"
    ∷ codes "identifier"
    ∷ codes "metadataPrefix"
    ∷ codes "resumptionToken"
    ∷ codes "set"
    ∷ []

-- The verb is there once the keys have passed; without one the comparison reads a null pointer.
unfoldable pub serve_verb : Option CString → Request → Option CString → Option Exit
serve_verb error_html r none = none
serve_verb error_html r (some verb) = finish error_html r (dispatch r verb)

unfoldable pub serve_open : Option CString → Request → Option (ErrorCode × CString) → Option Exit
serve_open error_html r (some (e, m)) = exit_error error_html r e m
serve_open error_html r none = serve_verb error_html r (r.cgi.getentrystr (codes "verb"))

unfoldable pub serve_keys : Option CString → Request → OpenResult → Check → Option Exit
serve_keys error_html r opened (refuse e m) = exit_error error_html r e m
serve_keys error_html r opened overread = none
serve_keys error_html r opened pass = serve_open error_html r (open_error opened)

-- `main` from the test of the keys on; `opened` is what `oai_open_repository` returns.
unfoldable pub serve : Option CString → Request → OpenResult → Option Exit
serve error_html r opened = serve_keys error_html r opened (has_valid_keys r.cgi valid_arguments)

-- `printf` prints a null pointer so.
abbrev shown_text : Option CString → CString
shown_text none = codes "(null)"
shown_text (some s) = s

abbrev redirect : Option CString → CString → Option CString → Option Exit
redirect to query value = some (record {
  status = 0;
  output = codes "Location: " ++ shown_text to ++ query ++ shown_text value ++ codes "\r\n\r\n";
})

is_zero : Option CString → Bool
is_zero none = false
is_zero (some s) = str_eq s (codes "0")

-- `main` from the parsed query on: the two redirections come before all else.
unfoldable pub route : Environment → Option CString → Request → OpenResult → Option Exit
unfolding is_zero
route env error_html r opened =
    if r.cgi.getnumentries (codes "initiate") == 1
    then redirect (env (codes "GWREGISTRY"))
        (if is_zero (env (codes "GWCONFIRM")) then codes "?url=" else codes "?init_url=")
        (r.cgi.getentrystr (codes "initiate"))
    else if r.cgi.getnumentries (codes "terminate") == 1
    then redirect (env (codes "GWTERMINATOR")) (codes "?init_url=")
        (r.cgi.getentrystr (codes "terminate"))
    else serve error_html r opened

-- `main`; `parsed` says whether `cgi_init` succeeds.
unfoldable pub gateway_main :
    Environment → Option CString → Bool → Request → OpenResult → Option Exit
gateway_main env error_html parsed r opened = elim (has_secure_env env) [
  | refuse e m ↦ exit_error error_html r e m
  | overread ↦ none
  | pass ↦
      if parsed
      then route env error_html r opened
      else exit_error error_html r http_404 (codes "Bad request")
]
