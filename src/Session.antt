-- ===== src/Session.antt =====
-- src/session/session.c: lock files in the spool directory, one for each database that is requested.
pub mod Files
pub mod Locked
pub mod ReadWrite
pub mod Locking
pub mod Next
use srepod.Prelude.{
  ℕ, zero, suc, ◌+◌, ◌-◌, ◌/◌, ◌%◌, Bool, true, false, not, ◌&&◌, ◌||◌, Option, none, some, List,
  [], ◌∷◌, ◌++◌, ltb, ◌==◌, if◌then◌else◌, ◌>>=◌, is_some, is_nil, is_space, skip_space, scan_run,
  scan_int, fgets_from, ℤ, pos, negsuc, CString, codes, starts_with, length, get_elem?, take, drop,
}
use srepod.HashTable.{HashTable, hash_add, hash_del, hash_val}
use srepod.Session.Files.{Disk, File, find_name, open_excl, unlink_path, write_file, entries}

-- What the code asks of its host: `GWSPOOL`, the 16 bytes of the digest of the md5 library, whether a
-- file with a new name can be created, and whether `dup` and `fdopen` succeed.
pub record Host : Type 0 where
  pub gwspool : Option CString
  pub md5 : CString → List ℕ
  pub creates : CString → Bool
  pub streams : Bool

-- A descriptor is the file on which it is open. The fields of characters hold at most 1023 of them.
pub record Session : Type 0 where
  pub lockfile : CString
  pub database : CString
  pub url : CString
  pub status : ℤ
  pub fd : ℕ
  pub modified : ℕ

pub data LockType : Type 0 where
  all_types unprocessed_types : LockType

-- The table `lock_hash` of a process, and the disk that it shares with the others.
pub record Process : Type 0 where
  pub lock_hash : HashTable
  pub disk : Disk

unfoldable pub spool_dir : Host → CString
spool_dir host = elim host.gwspool [ none ↦ codes "../spool" | some dir ↦ dir ]

abbrev hex_digit : ℕ → ℕ
hex_digit n = if ltb n 10 then b'0' + n else b'a' + (n - 10)

-- `"%02x"` of each byte
unfoldable pub hex_output : List ℕ → CString
hex_output [] = []
hex_output (b ∷ bs) = hex_digit (b / 16) ∷ hex_digit (b % 16) ∷ hex_output bs

unfoldable pub lock_name : Host → CString → CString → CString
lock_name host str prefix = spool_dir host ++ codes "/" ++ prefix ++ hex_output (host.md5 str)

abbrev pub lock_prefix : CString
lock_prefix = codes "lock"

-- `"%d"`
unfoldable pub decimal : ℕ → ℕ → CString
decimal zero n = []
decimal (suc fuel) n =
    let front = decimal fuel (n / 10) in
    if ltb n 10 then (b'0' + n) ∷ [] else front ++ (b'0' + n % 10) ∷ []

abbrev pub int_text : ℤ → CString
int_text (pos n) = decimal (suc n) n
int_text (negsuc n) = b'-' ∷ decimal (suc (suc n)) (suc n)

abbrev pub lock_text : CString → CString → ℤ → CString
lock_text database url status =
    codes "database="
    ++ (database
        ++ (b'\n'
            ∷ (codes "url="
                ++ (url ++ (b'\n' ∷ (codes "status=" ++ (int_text status ++ (b'\n' ∷ []))))))))

-- `strncpy` into a field, and its last byte set to NUL
abbrev pub clip : CString → CString
clip s = take 1023 s

-- The body of `create_lock` where nothing but an existing file, `none`, hinders it.
unfoldable pub new_lock : Host → ℕ → Disk → CString → CString → Option (Session × Disk)
new_lock host now d dbfile url = do
  (fd, d') ← open_excl d (lock_name host dbfile lock_prefix)
  some (
    record {
      lockfile = clip (lock_name host dbfile lock_prefix);
      database = clip dbfile;
      url = clip url;
      status = pos 0;
      fd = fd;
      modified = now;
    },
    write_file d' now fd (lock_text dbfile url (pos 0)),
  )

abbrev pub can_lock : Host → CString → Bool
can_lock host dbfile = host.creates (lock_name host dbfile lock_prefix) && host.streams

-- `create_lock` at the time `now`; `none` is -1.
unfoldable pub create_lock : Host → ℕ → Disk → CString → CString → Option (Session × Disk)
create_lock host now d dbfile url =
    if can_lock host dbfile then new_lock host now d dbfile url else none

-- The disk behind a `create_lock` that has failed: where `dup` or `fdopen` fails the file is there.
unfoldable pub lock_left : Host → Disk → CString → Disk
lock_left host d dbfile =
    if host.creates (lock_name host dbfile lock_prefix) && not host.streams
    then elim (open_excl d (lock_name host dbfile lock_prefix)) [ none ↦ d | some (fd, d') ↦ d' ]
    else d

unfoldable pub is_locked : Host → Disk → CString → Bool
is_locked host d dbfile = is_some (find_name (lock_name host dbfile lock_prefix) d.names)

-- `none` is an access out of bounds of `lock_hash`.
unfoldable pub release_lock : Process → Session → Option Process
release_lock p st = do
  h ← hash_del p.lock_hash st.lockfile
  some (record { lock_hash = h; disk = unlink_path p.disk st.lockfile })

unfoldable pub close_lock : Process → Session → Option Process
close_lock p st = do h ← hash_del p.lock_hash st.lockfile; some (record p { lock_hash = h })

-- `%1024s`, which leaves the field as it is where there is nothing to read. With its NUL a word of
-- 1024 characters does not fit in the field: `none`.
unfoldable pub scan_word : CString → CString → Option CString
scan_word field s =
    let w = (scan_run (λ c. not (is_space c)) 1024 (skip_space s)).0 in
    if is_nil w then some field else if length w == 1024 then none else some w

unfoldable pub scan_status : ℤ → CString → ℤ
scan_status field s = elim (scan_int (length s) s) [ none ↦ field | some (n, _) ↦ n ]

-- The body of the loop of `read_lock`.
unfoldable pub read_line : Session → CString → Option Session
read_line st buffer =
    if starts_with buffer (codes "database=")
    then scan_word st.database (drop 9 buffer) >>= (λ w. some (record st { database = w }))
    else if starts_with buffer (codes "url=")
    then scan_word st.url (drop 4 buffer) >>= (λ w. some (record st { url = w }))
    else if starts_with buffer (codes "status=")
    then some (record st { status = scan_status st.status (drop 7 buffer) })
    else some st

unfoldable pub read_lines : Session → List CString → Option Session
read_lines st [] = some st
read_lines st (buffer ∷ rest) = do st' ← read_line st buffer; read_lines st' rest

abbrev pub max_line_length : ℕ
max_line_length = 2048

-- `read_lock` on an open descriptor; `none` is a write past the end of a field.
unfoldable pub read_lock : Disk → Session → Option Session
read_lock d st = do
  f ← get_elem? d.files st.fd
  st' ← read_lines st (fgets_from (max_line_length - 1) (max_line_length - 1) [] f.content)
  some (record st' { modified = f.mtime })

-- `write_lock` on an open descriptor, at the time `now`
unfoldable pub write_lock : ℕ → Disk → Session → Option (Session × Disk)
write_lock now d st =
    let d' = write_file d now st.fd (lock_text st.database st.url st.status) in
    read_lock d' st >>= (λ st'. some (st', d'))

unfoldable pub fopen_lock : Disk → CString → Session → Option Session
fopen_lock d filename st = do
  fd ← find_name filename d.names
  some (record st { lockfile = clip filename; fd = fd })

unfoldable pub open_lock : Host → Disk → CString → Session → Option Session
open_lock host d dbfile st = fopen_lock d (lock_name host dbfile lock_prefix) st

-- What a round of the loop of `next_lock` comes to: it goes on, or it returns 0.
pub data Visit : Type 0 where
  skipped taken : Process → Session → Visit

abbrev pub is_zero : ℤ → Bool
is_zero (pos n) = n == 0
is_zero (negsuc n) = false

-- The flag and the status that has been read.
unfoldable pub is_wanted : LockType → Session → Bool
is_wanted all_types st = true
is_wanted unprocessed_types st = is_zero st.status

-- A lock file that no session of this process has: it is in the table before it is read.
unfoldable pub visit_free : LockType → Process → Session → CString → Option Visit
visit_free flag p st path = do
  h ← hash_add p.lock_hash path (codes "locked")
  st' ← read_lock p.disk st
  some (
      if is_wanted flag st'
      then taken (record p { lock_hash = h }) st'
      else skipped (record p { lock_hash = h }) st')

unfoldable pub visit_open :
    LockType → Process → Session → CString → ℕ → Option CString → Option Visit
visit_open flag p st path fd (some _) = some (skipped p st)
visit_open flag p st path fd none = visit_free flag p (record st { fd = fd; lockfile = path }) path

-- The body behind the test of the name, for the path of a lock file and what `open` finds there.
unfoldable pub visit_lock : LockType → Process → Session → CString → Option ℕ → Option Visit
visit_lock flag p st path none = some (skipped p st)
visit_lock flag p st path (some fd) = do
  held ← hash_val p.lock_hash path
  visit_open flag p st path fd held

-- The visit goes on to the rest of the directory, or ends the loop.
unfoldable pub go_on :
    Visit
    → (Process → Session → Option (Bool × Process × Session))
    → Option (Bool × Process × Session)
go_on (skipped p st) rest = rest p st
go_on (taken p st) rest = some (true, p, st)

-- The loop over the directory: whether a lock has been found, with the state that is left.
unfoldable pub next_entries :
    LockType → CString → Process → Session → List CString → Option (Bool × Process × Session)
next_entries flag dir p st [] = some (false, p, st)
next_entries flag dir p st (name ∷ rest) =
    if not (starts_with name lock_prefix) then next_entries flag dir p st rest else do
      let path : CString = dir ++ codes "/" ++ name
      v ← visit_lock flag p st path (find_name path p.disk.names)
      go_on v (λ p' st'. next_entries flag dir p' st' rest)

unfoldable pub next_lock : Host → LockType → Process → Session → Option (Bool × Process × Session)
next_lock host flag p st =
    next_entries flag (spool_dir host) p st (entries (spool_dir host) p.disk.names)
