-- ===== src/Registry.antt =====
-- src/registry/registry.c: the tests that the registry makes of its environment and of a url, and what
-- it reads of locks and of the configuration.
pub mod Urls
pub mod Status
pub mod Pages
pub mod Store
pub mod Requests
pub mod Allowed
pub mod Pending
pub mod Later
pub mod Entry
pub mod Unregister
pub mod Lines
pub mod Friends
pub mod Terminator
pub mod Terminated
pub mod Marked
use srepod.Prelude.{
  ℕ, zero, suc, ◌*◌, ◌-◌, Bool, true, false, not, ◌&&◌, ◌||◌, Option, none, some, List, [], ◌∷◌,
  ◌++◌, ◌==◌, leb, ltb, if◌then◌else◌, ◌>>=◌, is_nil, is_some, ℤ, pos, negsuc, CString, codes,
  str_eq, starts_with, length, drop, take,
}
use srepod.Config.{Config, config_open, config_param}
use srepod.Gateway.Env.{has_short, sec_max_content_length}
use srepod.Gateway.{Environment}
use srepod.Session.Files.{Disk, find_name}
use srepod.Session.{Host, Session, open_lock, read_lock, hex_output}

-- The loop of `substr` with `left` characters to go, over the memory from `start` on: it does not stop
-- at a NUL, and behind the last character it goes on as long as there are more of them. `none` is a
-- read past the end of the memory.
unfoldable pub copy_from : ℕ → List ℕ → Option (List ℕ)
copy_from left [] = none
copy_from (suc left) (c ∷ m) = do p ← copy_from left m; some (c ∷ p)
copy_from zero (c ∷ m) =
    let rest = copy_from zero m in if c == 0 then rest >>= (λ p. some (c ∷ p)) else some []

-- A buffer as a string: up to the first NUL.
unfoldable pub string_of : List ℕ → CString
string_of [] = []
string_of (c ∷ m) = if c == 0 then [] else c ∷ string_of m

-- `sizeof(char *)`, where a pointer is kept in an `int`, as config_open does.
abbrev pub pointer_size : ℕ
pointer_size = 4

-- `substr`, where `behind` is the memory behind the NUL of `str`. The new array has room for
-- `sizeof(char *) * l` bytes and a NUL; `none` is also a write past its end.
unfoldable pub substr : List ℕ → CString → ℕ → ℕ → Option CString
substr behind str start l = do
  p ← copy_from l (drop start (str ++ 0 ∷ behind))
  if leb (length p) (pointer_size * l) then some (string_of p) else none

-- `[a-z] [A-Z] [0-9] / + - % . : _ ~`
unfoldable pub is_url_char : ℕ → Bool
is_url_char c =
    (leb 48 c && leb c 57)
    || (leb 65 c && leb c 90)
    || (leb 97 c && leb c 122)
    || c == 37
    || c == 43
    || c == 45
    || c == 46
    || c == 47
    || c == 58
    || c == 95
    || c == 126

unfoldable pub all_url_chars : CString → Bool
all_url_chars [] = true
all_url_chars (c ∷ s) = is_url_char c && all_url_chars s

-- `valid_url`; `none` is a read past the end of the memory.
unfoldable pub valid_url : List ℕ → CString → Option Bool
valid_url behind url =
    if not (starts_with url (codes "http://"))
    then some false
    else substr behind url (length url - 4) 4
      >>= (λ p. if not (starts_with p (codes ".xml")) then some false else some (all_url_chars url))

-- The check of the request's method, with the variable that goes with it.
unfoldable pub valid_method : Environment → CString → Bool
valid_method env p =
    if ltb 4 (length p)
    then false
    else if str_eq p (codes "GET")
    then has_short env (codes "QUERY_STRING")
    else if str_eq p (codes "POST")
    then has_short env (codes "CONTENT_LENGTH")
    else false

unfoldable pub valid_env : Environment → Bool
valid_env env = elim (env (codes "REQUEST_METHOD")) [
  | none ↦ false
  | some p ↦ valid_method env p && elim (env (codes "PATH_INFO")) [
    | none ↦ true
    | some path ↦ not (ltb sec_max_content_length (length path))
  ]
]

abbrev pub md5_secret : CString
md5_secret = codes "uuled1782HHGWH762ghgsqhdq5762109JkhdcuhiJGSHYGSSVBVHg12198192jhfgkdf"

unfoldable pub secdigest : Host → Option CString → CString → CString
secdigest host remote_addr key =
    let addr : CString = elim remote_addr [ none ↦ codes "127.0.0.1" | some a ↦ a ] in
    hex_output (host.md5 (md5_secret ++ (addr ++ key)))

unfoldable pub is_file : Disk → CString → Bool
is_file d filename = is_some (find_name filename d.names)

-- `dorefresh`, and the message for a status.
unfoldable pub status_text : ℤ → Bool × Option CString
status_text (negsuc n) = (false, none)
status_text (pos n) =
    if n == 0
    then (true, some (codes "request is pending...please wait..."))
    else if n == 1
    then (true, some (codes "contacting server...please wait..."))
    else if n == 2
    then (true, some (codes "validating reponse...please wait..."))
    else if n == 3
    then (true, some (codes "writing repository...please wait..."))
    else if n == 4
    then (false, some (codes "invalid repository - request failed"))
    else if n == 5
    then (false, some (codes "gateway doesn't have any resources left"))
    else if n == 6
    then (false, some (codes "gateway has a configuration error"))
    else (false, none)

-- `lockstatus`: the session `st` is not initialised. A lock that cannot be opened leaves `dorefresh` as
-- it is. The outer `none` is a write past the end of a field.
unfoldable pub lockstatus : Host → Disk → Bool → Session → CString → Option (Bool × Option CString)
lockstatus host d dorefresh st key = elim (open_lock host d key st) [
  | none ↦ some (dorefresh, none)
  | some st₁ ↦ read_lock d st₁ >>= (λ st₂. some (status_text st₂.status))
]

-- `dbexists`, for a configuration file with the content `file`.
unfoldable pub dbexists : List ℕ → CString → CString → CString → CString → Option Bool
dbexists behind fp gwdbconf file url = do
  frag ← substr behind url 6 (length url)
  db_conf ← config_open fp gwdbconf file false
  database ← config_param db_conf frag
  some (not (is_nil database))
