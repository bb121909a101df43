-- ===== src/OaiGdbm/Open.antt =====
-- src/oai-gdbm/oai-gdbm.c: `oai_open_repository`.
use srepod.Config.{config_open, config_param}
use srepod.Gateway.{Environment}
use srepod.Gateway.Main.{
  OpenResult, success, gateway_locked, invalid_repository, network_error, access_error,
  no_such_gateway, configuration_error, internal_error,
}
use srepod.HttpHead.{HeadStruct, Line, simple_header}
use srepod.OaiGdbm.{Machine, Gdbm, missing, overflow, got, get_url, get_lmf, get_status}
use srepod.Prelude.{
  not, ℕ, suc, ◌==◌, Bool, true, false, Option, none, some, List, if◌then◌else◌, ◌>>=◌, leb, is_nil,
  ℤ, pos, negsuc, length, CString, codes,
}
use srepod.Session.{
  Host, Session, Process, create_lock, lock_left, is_locked, open_lock, read_lock, close_lock,
}

-- What `oai_open_repository` asks of its host: `environ` is the environment, `gwdbconf` the constant
-- of the build, `conf` opens a configuration file, `fp` is the text of its file pointer, `open_db` is
-- `gdbm_open`, `request` is what libcurl receives,
-- and `log_argument` says whether a string can be read where `log` looks for an argument that the call
-- does not pass.
pub record World : Type 0 where
  pub environ : Environment
  pub gwdbconf : CString
  pub conf : CString → Option CString
  pub fp : CString
  pub open_db : CString → Option Gdbm
  pub request : CString → CString → Option (List Line)
  pub suffix : CString
  pub machine : Machine
  pub host : Host
  pub log_argument : Bool

-- The name of the database, or the error that is returned for want of one.
pub data Located : Type 0 where
  located : CString → Located
  not_located : OpenResult → Located

unfoldable pub conf_name : World → CString
conf_name w = elim (w.environ (codes "GWDBCONF")) [ none ↦ w.gwdbconf | some c ↦ c ]

-- The test of `DATABASE`, and of the size of the array into which it is copied.
unfoldable pub check_database : Option CString → Located
check_database none = not_located no_such_gateway
check_database (some s) =
    if is_nil s
    then not_located no_such_gateway
    else if leb 1024 (length s)
    then not_located internal_error
    else located s

-- The database that the configuration has under the path. `none` is an access out of bounds.
unfoldable pub look_up_path : World → CString → Option Located
unfolding check_database
look_up_path w path = elim (w.conf (conf_name w)) [
  | none ↦ some (not_located configuration_error)
  | some file ↦ do
    c ← config_open w.fp (conf_name w) file false
    v ← config_param c path
    some (check_database (some v))
]

unfoldable pub locate : World → Option Located
unfolding conf_name look_up_path check_database
locate w = elim (w.environ (codes "PATH_INFO")) [
  | none ↦ some (check_database (w.environ (codes "GWDBFILE")))
  | some path ↦
      if is_nil (conf_name w) then some (not_located configuration_error) else look_up_path w path
]

-- The `switch` on the status of a lock: SESSION_INVALID is 4, SESSION_NO_RESOURCES_LEFT is 5 and
-- SESSION_CONFIG_ERROR is 6.
unfoldable pub locked_result : ℤ → OpenResult
locked_result (negsuc n) = gateway_locked
locked_result (pos n) =
    if n == 4
    then invalid_repository
    else if n == 5
    then internal_error
    else if n == 6
    then internal_error
    else gateway_locked

-- The branch for a database that is locked; `st` is not initialised.
unfoldable pub open_locked : World → Process → Session → CString → Option (OpenResult × Process)
unfolding locked_result
open_locked w p st dbfile =
    if not w.log_argument then none else elim (open_lock w.host p.disk dbfile st) [
      | none ↦ some (internal_error, p)
      | some st₁ ↦ do
        st₂ ← read_lock p.disk st₁
        p' ← close_lock p st₂
        some (locked_result st₂.status, p')
    ]

abbrev pub is_positive : ℤ → Bool
is_positive (pos (suc n)) = true
is_positive _ = false

abbrev pub is_code : ℕ → ℤ → Bool
is_code k (pos n) = n == k
is_code k (negsuc n) = false

-- The database is not up to date: the daemon is asked for a new copy.
unfoldable pub ask_daemon : World → ℕ → Process → CString → CString → Option (OpenResult × Process)
ask_daemon w now p dbfile url = elim (create_lock w.host now p.disk dbfile url) [
  | none ↦ some (gateway_locked, record p { disk = lock_left w.host p.disk dbfile })
  | some (st, d) ↦ do p' ← close_lock (record p { disk = d }) st; some (gateway_locked, p')
]

-- From the answer of the server on; `lock_status` is that of the database.
unfoldable pub check_answer :
    World → ℕ → Process → CString → CString → ℤ → Option HeadStruct → Option (OpenResult × Process)
unfolding ask_daemon
check_answer w now p dbfile url lock_status none = some (network_error, p)
check_answer w now p dbfile url lock_status (some hs) =
    if is_code 200 hs.status_code
    then ask_daemon w now p dbfile url
    else if is_code 304 hs.status_code
    then some (if is_positive lock_status then invalid_repository else success, p)
    else some (access_error, p)

-- The branch for a database that is free.
unfoldable pub open_free : World → ℕ → Process → CString → Option (OpenResult × Process)
unfolding check_answer
open_free w now p dbfile = elim (w.open_db dbfile) [
  | none ↦ some (configuration_error, p)
  | some g ↦ elim (get_status w.machine g) [
    | none ↦ some (configuration_error, p)
    | some lock_status ↦ elim (get_url w.machine g) [
      | missing ↦ some (configuration_error, p)
      | overflow ↦ none
      | got url ↦ elim (get_lmf w.machine g) [
        | missing ↦ some (configuration_error, p)
        | overflow ↦ none
        | got lmf ↦ do
          answer ← simple_header w.request w.suffix url lmf
          check_answer w now p dbfile url lock_status answer
      ]
    ]
  ]
]

unfoldable pub open_database :
    World → ℕ → Process → Session → CString → Option (OpenResult × Process)
unfolding open_locked open_free
open_database w now p st dbfile =
    if is_locked w.host p.disk dbfile then open_locked w p st dbfile else open_free w now p dbfile

unfoldable pub open_found : World → ℕ → Process → Session → Located → Option (OpenResult × Process)
open_found w now p st (not_located e) = some (e, p)
open_found w now p st (located dbfile) = open_database w now p st dbfile

-- `oai_open_repository` at the time `now`: what it returns, and the process that it leaves. `none` is
-- an access out of bounds.
unfoldable pub oai_open_repository : World → ℕ → Process → Session → Option (OpenResult × Process)
unfolding locate
oai_open_repository w now p st = do l ← locate w; open_found w now p st l
