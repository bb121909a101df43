-- ===== src/Tests/Opens.antt =====
-- src/oai-gdbm/oai-gdbm.c: the file of a host is opened.
use mathlib.Core.Path.{subst}
use srepod.Config.Lines.{is_black, all_in-AllIn}
use srepod.Gateway.Main.{OpenResult, success, gateway_locked, configuration_error}
use srepod.HashTable.{hash, positive_sum, negative_sum, change, hash_new, hash_del}
use srepod.HashTable.Nodes.{unlink}
use srepod.HashTable.Shape.{hash_new-IsHashTable}
use srepod.HttpHead.{parse_header, status_line, scan_status, perform, simple_header, init_header}
use srepod.OaiGdbm.{Machine, Gdbm, c_string, copy_data, literal_key, get_url, get_lmf, get_status}
use srepod.OaiGdbm.Errors.{NoNulKeys, oai_open_repository-wide}
use srepod.OaiGdbm.Open.{
  World, located, locate, check_database, open_found, open_database, open_free, check_answer,
  ask_daemon, oai_open_repository,
}
use srepod.OaiGdbm.Opened.{IsFresh, oai_open_repository-IsFresh}
use srepod.OaiGdbm.Outdated.{oai_open_repository-outdated}
use srepod.Prelude.{
  true, ℕ, ◌%◌, false, Option, none, some, [], ◌∷◌, ◌≡◌, refl, arith, if◌then◌else◌, is_space,
  CString, codes, length, replicate, str_eq, starts_with, scan_run, scan_int, skip_space,
  digits_value, pos,
}
use srepod.Session.{
  new_lock, Host, Session, Process, create_lock, is_locked, close_lock, clip, lock_name, spool_dir,
  hex_output,
}
use srepod.Session.Files.{open_excl, find_name}
use srepod.Session.Locked.{lock_of}
use srepod.Session.ReadWrite.{IsWord}
use srepod.Tests.GdbmFiles.{look_up, names, look_up-has_nul, table, file, wide, narrow}

abbrev host : Host
host = record {
  gwspool = some (codes "spool");
  md5 = λ s. replicate 2 (length s % 256);
  creates = λ path. true;
  streams = true;
}

-- A host on which a server answers with one line.
abbrev world_of : Machine → CString → World
world_of machine line = record {
  environ = λ name. if str_eq name (codes "GWDBFILE") then some (codes "db") else none;
  gwdbconf = codes "./gateway.conf";
  conf = λ name. none;
  fp = codes "0x1";
  open_db = λ name. some file;
  request = λ url since. some (record { text = line; behind = replicate 20 0 } ∷ []);
  suffix = codes "?1";
  machine = machine;
  host = host;
  log_argument = true;
}

abbrev empty_process : Process
empty_process = record { lock_hash = hash_new; disk = record { names = []; files = [] } }

abbrev no_session : Session
no_session = record { lockfile = []; database = []; url = []; status = pos 0; fd = 0; modified = 0 }

db-located :
    (machine : Machine) (line : CString)
    → locate (world_of machine line) ≡ some (located (codes "db"))
unfolding locate check_database str_eq
db-located machine line = refl

db-free : is_locked host empty_process.disk (codes "db") ≡ false
unfolding is_locked find_name
db-free = refl

file-NoNulKeys : (g : Gdbm) → some file ≡ some g → NoNulKeys g
unfolding names
file-NoNulKeys g e =
    let q : file ≡ g = cc in
    subst NoNulKeys q
      (λ key. look_up-has_nul table key (refl, (refl, (refl, (refl, (refl, (refl, (refl, tt))))))))

oai_open_repository-wide_example :
    oai_open_repository (world_of wide (codes "HTTP/1.1 304 Not")) 5 empty_process no_session
    ≡ some (configuration_error, empty_process)
oai_open_repository-wide_example =
    oai_open_repository-wide (world_of wide (codes "HTTP/1.1 304 Not")) 5 empty_process no_session
      (codes "db") (omega arith) file-NoNulKeys (db-located wide (codes "HTTP/1.1 304 Not")) db-free

abbrev fresh_world : World
fresh_world = world_of narrow (codes "HTTP/1.1 304 Not")

fresh-open :
    oai_open_repository fresh_world 5 empty_process no_session ≡ some (success, empty_process)
unfolding oai_open_repository locate check_database open_found open_database open_free check_answer
    is_locked find_name look_up literal_key get_status get_url get_lmf copy_data c_string scan_int
    skip_space is_space scan_run digits_value simple_header perform parse_header status_line
    scan_status init_header starts_with str_eq
fresh-open = refl

oai_open_repository-IsFresh_example :
    IsFresh fresh_world empty_process × (empty_process ≡ empty_process)
oai_open_repository-IsFresh_example =
    oai_open_repository-IsFresh fresh_world 5 empty_process empty_process no_session fresh-open

abbrev outdated_world : World
outdated_world = world_of narrow (codes "HTTP/1.1 200 OK ")

abbrev process_of : Option (OpenResult × Process) → Process
process_of none = empty_process
process_of (some (r, p)) = p

abbrev locked_process : Process
locked_process = process_of (oai_open_repository outdated_world 5 empty_process no_session)

outdated-open :
    oai_open_repository outdated_world 5 empty_process no_session
    ≡ some (gateway_locked, locked_process)
unfolding oai_open_repository locate check_database open_found open_database open_free check_answer
    is_locked find_name look_up literal_key get_status get_url get_lmf copy_data c_string scan_int
    skip_space is_space scan_run digits_value simple_header perform parse_header status_line
    scan_status init_header starts_with str_eq ask_daemon create_lock new_lock open_excl close_lock
    hash_new hash_del change hash positive_sum negative_sum unlink lock_name spool_dir hex_output
outdated-open = refl

db-IsWord : IsWord (codes "db")
unfolding is_space
db-IsWord = record { ne_nil = refl; black = (refl, (refl, tt)); fits = omega arith }

url-IsWord : IsWord (codes "http://h/r.xml")
unfolding is_space
url-IsWord = record {
  ne_nil = refl;
  black = all_in-AllIn is_black (codes "http://h/r.xml") refl;
  fits = omega arith;
}

db-hash : (i : ℕ) × (hash (clip (lock_of host (codes "db"))) ≡ some i)
unfolding hash positive_sum negative_sum lock_name spool_dir hex_output
db-hash = (_, refl)

abbrev next_process : Process
next_process = record { lock_hash = hash_new; disk = locked_process.disk }

-- The next request finds the server as it was at the time of the file.
oai_open_repository-outdated_example :
    (q' : Process) × (oai_open_repository fresh_world 9 next_process no_session
      ≡ some (gateway_locked, q'))
    × (q'.disk ≡ next_process.disk)
unfolding look_up literal_key get_url copy_data c_string str_eq
oai_open_repository-outdated_example =
    oai_open_repository-outdated outdated_world fresh_world 5 9 empty_process locked_process
      next_process no_session no_session (codes "db") (codes "http://h/r.xml")
      (db-located narrow (codes "HTTP/1.1 200 OK ")) refl db-free refl refl outdated-open db-IsWord
      url-IsWord db-hash.1 refl refl (db-located narrow (codes "HTTP/1.1 304 Not")) refl
      hash_new-IsHashTable
