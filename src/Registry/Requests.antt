-- ===== src/Registry/Requests.antt =====
-- src/registry/registry.c: `process_request` and `main`.
use srepod.Prelude.{
  ℕ, ◌==◌, Bool, true, false, not, ◌&&◌, Option, none, some, [], ◌++◌, if◌then◌else◌, ◌>>=◌, is_nil,
  CString, codes, str_eq, length,
}
use srepod.Registry.Pages.{cmd_registry, cmd_success, cmd_error}
use srepod.Registry.Store.{Site, register_database}
use srepod.Registry.{substr, valid_env, valid_url, secdigest, is_file, lockstatus, dbexists}
use srepod.Session.Files.{Disk, link_path, rename_path, unlink_path, content_of}
use srepod.Session.{
  Session, Process, create_lock, lock_left, is_locked, close_lock, lock_name, lock_prefix,
}

-- The end of a run: the exit status, what was printed, and the locks and files that it leaves. `none`
-- in place of it is an access out of bounds.
pub record Outcome : Type 0 where
  pub status : ℕ
  pub output : CString
  pub process : Process

-- `return(-1)` with a value of `errmsg`, for which `main` prints a page and exits with 1.
unfoldable pub request_failed : Site → Process → CString → Option Outcome
request_failed site p errmsg = do
  output ← cmd_error site.pages errmsg
  some (record { status = 1; output = output; process = p })

-- A page for a value of `dorefresh`, and the status 0.
unfoldable pub request_shown : Site → Process → Bool → CString → Option Outcome
request_shown site p dorefresh text = do
  output ← cmd_success site.pages dorefresh text
  some (record { status = 0; output = output; process = p })

unfoldable pub status_page : Option CString → CString
status_page none = codes "Failed to process request"
status_page (some status) = codes "Processing request : " ++ status

-- The name of the temporary database of a url, and of the copy of its lock.
unfoldable pub tmp_dbfile : Site → CString → CString
tmp_dbfile site url = lock_name site.host url (codes "tmpdbf")

abbrev pub lock_copy : CString → CString
lock_copy dbfile = dbfile ++ codes "#registry"

-- The status of a lock is shown, and `path` is removed if it is the last.
unfoldable pub show_status : Site → Process → Session → CString → CString → Option Outcome
show_status site p st dbfile path = do
  (dorefresh, status) ← lockstatus site.host p.disk false st dbfile
  request_shown site (if dorefresh then p else record p { disk = unlink_path p.disk path })
      dorefresh (status_page status)

-- The daemon has left a database.
unfoldable pub install : Site → Process → CString → CString → Option Outcome
install site p url dbfile = do
  (done, gwurl, d) ← register_database site p.disk url dbfile
  let p' : Process = record p { disk = unlink_path d (lock_copy dbfile) }
  if done
      then request_shown site p' false (
          codes "Request succeeded<p>Your repository is available at: <a href=\""
          ++ (gwurl ++ (codes "\">" ++ (gwurl ++ codes "</a>"))))
      else (cmd_error site.pages (codes "Failed to register the database")
          >>= (λ output. some (record { status = 0; output = output; process = p' })))

-- The daemon has left the copy of a lock: it gets the name of the lock again.
unfoldable pub show_copy : Site → Process → Session → CString → Option Outcome
unfolding show_status
show_copy site p st dbfile =
    let path : CString = lock_name site.host dbfile lock_prefix in
    elim (rename_path p.disk (lock_copy dbfile) path) [
      | none ↦ request_failed site p (codes "configuration error")
      | some d ↦ show_status site (record p { disk = d }) st dbfile path
    ]

-- The lock has been created as the session `lock`: the copy is linked to it.
unfoldable pub link_copy : Site → Process → Session → CString → Option Outcome
link_copy site p lock dbfile = elim (link_path p.disk lock.lockfile (lock_copy dbfile)) [
  | none ↦ request_failed site p (codes "configuration error")
  | some d ↦ do
    p' ← close_lock (record p { disk = d }) lock
    request_shown site p' true (codes "Processing request : please wait ...")
]

unfoldable pub ask_daemon : Site → Process → CString → CString → Option Outcome
unfolding link_copy
ask_daemon site p url dbfile = elim (create_lock site.host site.now p.disk dbfile url) [
  | none ↦
      request_failed site (record p { disk = lock_left site.host p.disk dbfile })
        (codes "url is locked")
  | some (lock, d) ↦ link_copy site (record p { disk = d }) lock dbfile
]

-- A url that is not registered; `st` is not initialised.
unfoldable pub check_spool : Site → Process → Session → CString → Option Outcome
unfolding show_status install show_copy ask_daemon tmp_dbfile
check_spool site p st url =
    let dbfile : CString = tmp_dbfile site url in
    if is_locked site.host p.disk dbfile
    then show_status site p st dbfile (lock_copy dbfile)
    else if is_file p.disk dbfile
    then install site p url dbfile
    else if is_file p.disk (lock_copy dbfile)
    then show_copy site p st dbfile
    else ask_daemon site p url dbfile

-- The name and the content of the configuration, if it is set and can be opened.
unfoldable pub conf_of : Site → Disk → Option (CString × CString)
conf_of site d = do
  gwdbconf ← site.environ (codes "GWDBCONF")
  file ← content_of d gwdbconf
  some (gwdbconf, file)

-- `dbexists`; the inner `none` is -1.
unfoldable pub is_registered : Site → Disk → CString → Option (Option Bool)
is_registered site d url = substr site.behind url 6 (length url) >>= λ _. elim (conf_of site d) [
  | none ↦ some none
  | some (gwdbconf, file) ↦ dbexists site.behind site.fp gwdbconf file url >>= (λ b. some (some b))
]

unfoldable pub check_registered : Site → Process → Session → CString → Option Outcome
unfolding is_registered check_spool
check_registered site p st url = is_registered site p.disk url >>= λ r. elim r [
  | none ↦ request_failed site p (codes "configuration error")
  | some registered ↦
      if registered
      then request_failed site p (codes "static repository already registered!")
      else check_spool site p st url
]

abbrev pub is_off : Option CString → Bool
is_off none = false
is_off (some s) = str_eq s (codes "0")

-- `domd5`
unfoldable pub needs_digest : Site → Bool
needs_digest site =
    not (is_off (site.environ (codes "GWMD5TEST")))
    && not (is_off (site.environ (codes "GWCONFIRM")))

unfoldable pub digest_of : Site → CString → CString
digest_of site url = secdigest site.host (site.environ (codes "REMOTE_ADDR")) url

unfoldable pub confirm_text : CString → CString → CString → CString
confirm_text url email digest =
    codes "Request registered, please click on <a href=\"registry.cgi?url="
    ++ (url
        ++ (codes "&email="
            ++ (email ++ (codes "&md5=" ++ (digest ++ codes "\">this</a> link to proceed.")))))

-- The digest has 32 characters, so that `strncmp` compares the whole of it.
unfoldable pub check_digest :
    Site → Process → Session → CString → CString → CString → Option Outcome
unfolding check_registered needs_digest digest_of
check_digest site p st url email md5 =
    if not (needs_digest site)
    then check_registered site p st url
    else if is_nil md5
    then request_shown site p false (confirm_text url email (digest_of site url))
    else if length md5 == 32 && str_eq md5 (digest_of site url)
    then check_registered site p st url
    else request_failed site p (codes "checksum not valid")

abbrev pub or_empty : Option CString → CString
or_empty none = []
or_empty (some s) = s

-- `process_request`, where `query` is `cgi_getentrystr`.
unfoldable pub process_request :
    Site → Process → Session → (CString → Option CString) → Option Outcome
unfolding check_digest
process_request site p st query =
    if not (is_nil (or_empty (query (codes "init_url"))))
    then (cmd_registry site.pages (or_empty (query (codes "init_url")))
          (or_empty (query (codes "init_email")))
        >>= (λ output. some (record { status = 0; output = output; process = p })))
    else (valid_url site.behind (or_empty (query (codes "url"))) >>= (λ valid.
        if valid
        then check_digest site p st (or_empty (query (codes "url")))
            (or_empty (query (codes "email"))) (or_empty (query (codes "md5")))
        else request_failed site p (codes "invalid url")))

-- `main`; `parsed` says whether `cgi_init` succeeds.
unfoldable pub registry_main :
    Site → Bool → Process → Session → (CString → Option CString) → Option Outcome
unfolding process_request
registry_main site parsed p st query =
    if not (valid_env site.environ && parsed)
    then request_failed site p (codes "Bad request")
    else process_request site p st query
