-- ===== src/Registry/Terminator.antt =====
-- src/registry/terminator.c: a lock is left for a repository that is to be taken out. Its substr,
-- valid_url and valid_env are those of the registry, and its cmd_success and cmd_error print what those
-- of the registry print without a refresh.
use srepod.Config.{config_open, config_param}
use srepod.Prelude.{
  ◌==◌, ◌&&◌, Bool, false, not, Option, none, some, [], ◌∷◌, ◌++◌, if◌then◌else◌, ◌>>=◌, is_nil,
  is_some, CString, codes, length, ltb, str_eq,
}
use srepod.Registry.{substr, valid_env, valid_url}
use srepod.Registry.Pages.{page_part, page_head}
use srepod.Registry.Requests.{
  Outcome, request_failed, request_shown, conf_of, needs_digest, or_empty,
}
use srepod.Registry.Store.{Site}
use srepod.Session.Files.{Disk}
use srepod.Session.{Session, Process, create_lock, lock_left, write_lock, close_lock, hex_output}
use srepod.Template.{args_template}

abbrev pub terminator_secret : CString
terminator_secret = codes "dsf8fs8fs8f9sfs435435****1121212Kjg@3!!!';fksdf937xn8y1872"

-- `secdigest`
unfoldable pub secdigest : Site → CString → CString
secdigest site key =
    let addr : CString = elim (site.environ (codes "REMOTE_ADDR")) [
      | none ↦ codes "127.0.0.1"
      | some a ↦ a
    ] in
    hex_output (site.host.md5 (terminator_secret ++ (addr ++ key)))

-- The parameter of a configuration file for the path of a url, if it is not empty.
unfoldable pub database_of : Site → CString → CString → CString → Option (Option CString)
database_of site gwdbconf file frag = do
  c ← config_open site.fp gwdbconf file false
  database ← config_param c frag
  some (if is_nil database then none else some database)

-- `getdbfile`; the inner `none` is NULL, the outer one an access out of bounds.
unfoldable pub getdbfile : Site → Disk → CString → Option (Option CString)
unfolding database_of
getdbfile site d url = substr site.behind url 6 (length url) >>= λ frag. elim (conf_of site d) [
  | none ↦ some none
  | some (gwdbconf, file) ↦ database_of site gwdbconf file frag
]

-- `cmd_terminate`, and the status 0.
unfoldable pub cmd_terminate : Site → Process → Option CString → CString → Option Outcome
cmd_terminate site p html url = do
  body ← page_part html (args_template 3 (some url ∷ none ∷ []))
  some (record { status = 0; output = page_head ++ body; process = p })

abbrev pub terminate_url : CString → CString
terminate_url url = url ++ codes "#TERMINATE"

abbrev pub success_text : CString
success_text = codes "Request succeeded<p>Your termination request will be processed."

-- From the session that create_lock leaves on. The url must fit into its field.
unfoldable pub mark_lock : Site → Process → Session → CString → Option Outcome
mark_lock site p st url = if not (ltb (length (terminate_url url)) 1024) then none else do
  (st', d) ← write_lock site.now p.disk (record st { url = terminate_url url })
  p' ← close_lock (record p { disk = d }) st'
  request_shown site p' false success_text

-- From the call of create_lock on, which gets the new memory `p` before anything is written to it:
-- `memory` is the string that is there, if there is a NUL at all.
unfoldable pub lock_database : Site → Process → Option CString → CString → CString → Option Outcome
unfolding mark_lock
lock_database site p memory url dbfile =
    elim (create_lock site.host site.now p.disk dbfile (or_empty memory)) [
      | none ↦
          request_failed site (record p { disk = lock_left site.host p.disk dbfile })
            (codes "url is locked")
      | some (st, d) ↦
          if is_some memory then mark_lock site (record p { disk = d }) st url else none
    ]

unfoldable pub find_database : Site → Process → Option CString → CString → Option Outcome
unfolding getdbfile lock_database
find_database site p memory url = getdbfile site p.disk url >>= λ r. elim r [
  | none ↦ request_failed site p (codes "static repository is not registered!")
  | some dbfile ↦ lock_database site p memory url dbfile
]

unfoldable pub confirm_text : CString → CString → CString
confirm_text url digest =
    codes "Request registered, please click on <a href=\"terminator.cgi?url="
    ++ (url ++ (codes "&md5=" ++ (digest ++ codes "\">this</a> link to proceed.")))

unfoldable pub check_md5 : Site → Process → Option CString → CString → CString → Option Outcome
unfolding secdigest find_database
check_md5 site p memory url md5 =
    if not (needs_digest site)
    then find_database site p memory url
    else if is_nil md5
    then request_shown site p false (confirm_text url (secdigest site url))
    else if length md5 == 32 && str_eq md5 (secdigest site url)
    then find_database site p memory url
    else request_failed site p (codes "checksum not valid")

-- `process_request`, where `html` is the template of the page.
unfoldable pub process_request :
    Site → Process → Option CString → Option CString → (CString → Option CString) → Option Outcome
unfolding cmd_terminate check_md5
process_request site p html memory query =
    if is_nil (or_empty (query (codes "url")))
    then cmd_terminate site p html (or_empty (query (codes "init_url")))
    else (valid_url site.behind (or_empty (query (codes "url"))) >>= (λ valid.
        if valid
        then check_md5 site p memory (or_empty (query (codes "url")))
            (or_empty (query (codes "md5")))
        else request_failed site p (codes "invalid url")))

-- `main`; `parsed` says whether `cgi_init` succeeds.
unfoldable pub terminator_main :
    Site
    → Bool
    → Process
    → Option CString
    → Option CString
    → (CString → Option CString)
    → Option Outcome
unfolding process_request
terminator_main site parsed p html memory query =
    if not (valid_env site.environ && parsed)
    then request_failed site p (codes "Bad request")
    else process_request site p html memory query
