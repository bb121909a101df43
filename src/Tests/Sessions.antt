-- ===== src/Tests/Sessions.antt =====
-- src/session/session.c: a spool directory with one lock file.
use srepod.Prelude.{
  ◌%◌, Bool, true, false, Option, none, some, [], ◌∷◌, ◌≡◌, refl, arith, is_space, skip_space,
  scan_run, scan_int, digits_value, fgets_from, starts_with, codes, str_eq, length, replicate, pos,
}
use srepod.HashTable.Nodes.{find, store, unlink}
use srepod.HashTable.{
  hash, positive_sum, negative_sum, change, chain_of, hash_new, hash_add, hash_del, hash_val,
}
use srepod.Session.Files.{Disk, find_name, open_excl, entries, entry_of, has_slash}
use srepod.Session.Locked.{lock_of}
use srepod.Session.Next.{next_lock-IsNext}
use srepod.Session.Locking.{IsNext, visit_lock-once, process_of}
use srepod.Session.ReadWrite.{IsWord, write_lock-read_lock}
use srepod.Session.{
  new_lock, Host, Session, Process, all_types, unprocessed_types, Visit, skipped, lock_name,
  spool_dir, hex_output, decimal, lock_text, create_lock, release_lock, read_line, read_lines,
  read_lock, write_lock, scan_word, scan_status, is_wanted, visit_lock, visit_open, visit_free,
  go_on, next_entries, next_lock,
}

abbrev host : Host
host = record {
  gwspool = some (codes "spool");
  md5 = λ s. replicate 2 (length s % 256);
  creates = λ path. true;
  streams = true;
}

abbrev empty_disk : Disk
empty_disk = record { names = []; files = [] }

abbrev no_session : Session
no_session = record { lockfile = []; database = []; url = []; status = pos 0; fd = 0; modified = 0 }

abbrev created_of : Option (Session × Disk) → Session × Disk
created_of none = (no_session, empty_disk)
created_of (some r) = r

abbrev created : Session × Disk
created = created_of (create_lock host 5 empty_disk (codes "db") (codes "http://a"))

created-eq :
    create_lock host 5 empty_disk (codes "db") (codes "http://a") ≡ some (created.0, created.1)
unfolding create_lock new_lock open_excl find_name
created-eq = refl

abbrev process : Process
process = record { lock_hash = hash_new; disk = created.1 }

abbrev process_or : Option Process → Process
process_or none = process
process_or (some p) = p

abbrev released : Process
released = process_or (release_lock process created.0)

released-eq : release_lock process created.0 ≡ some released
unfolding create_lock new_lock open_excl find_name release_lock hash_new hash_del change hash
    positive_sum negative_sum unlink lock_name spool_dir hex_output
released-eq = refl

created-lockfile : created.0.lockfile ≡ lock_of host (codes "db")
unfolding create_lock new_lock open_excl find_name lock_name spool_dir hex_output
created-lockfile = refl

abbrev session : Session
session = record no_session { database = codes "db"; url = codes "u"; status = pos 4 }

abbrev one_file : Disk
one_file = record {
  names = (codes "spool/lock1", 0) ∷ [];
  files = record { content = lock_text (codes "db") (codes "u") (pos 4); mtime = 3 } ∷ [];
}

db-IsWord : IsWord (codes "db")
unfolding is_space
db-IsWord = record { ne_nil = refl; black = (refl, (refl, tt)); fits = omega arith }

u-IsWord : IsWord (codes "u")
unfolding is_space
u-IsWord = record { ne_nil = refl; black = (refl, tt); fits = omega arith }

write_lock-read_lock_example :
    (d' : Disk) × (write_lock 9 one_file session ≡ some (record session { modified = 9 }, d'))
    × (read_lock d' no_session
        ≡ some (record no_session {
          database = codes "db";
          url = codes "u";
          status = pos 4;
          modified = 9;
        }))
write_lock-read_lock_example =
    write_lock-read_lock one_file 9 4 session no_session (omega arith) refl db-IsWord u-IsWord refl
      (omega arith)

abbrev spooled : Process
spooled = record { lock_hash = hash_new; disk = one_file }

abbrev next_of : Option (Bool × Process × Session) → Process × Session
next_of none = (spooled, no_session)
next_of (some (b, p, st)) = (p, st)

abbrev found : Process × Session
found = next_of (next_lock host all_types spooled no_session)

found-eq : next_lock host all_types spooled no_session ≡ some (true, found.0, found.1)
unfolding next_lock next_entries go_on visit_lock visit_open visit_free is_wanted read_lock
    read_lines read_line scan_word scan_status decimal starts_with fgets_from is_space skip_space
    scan_run scan_int digits_value entries entry_of has_slash spool_dir find_name str_eq hash_new
    hash_val chain_of find hash_add change hash positive_sum negative_sum store
found-eq = refl

next_lock-IsNext_example : IsNext all_types spooled found.0 found.1
next_lock-IsNext_example =
    next_lock-IsNext host all_types spooled found.0 no_session found.1 found-eq

found-held : hash_val found.0.lock_hash (codes "spool/lock1") ≡ some (some (codes "locked"))
unfolding next_lock next_entries go_on visit_lock visit_open visit_free is_wanted read_lock
    read_lines read_line scan_word scan_status decimal starts_with fgets_from is_space skip_space
    scan_run scan_int digits_value entries entry_of has_slash spool_dir find_name str_eq hash_new
    hash_val chain_of find hash_add change hash positive_sum negative_sum store
found-held = refl

none_left : next_lock host all_types found.0 no_session ≡ some (false, found.0, no_session)
unfolding next_lock next_entries go_on visit_lock visit_open visit_free is_wanted read_lock
    read_lines read_line scan_word scan_status decimal starts_with fgets_from is_space skip_space
    scan_run scan_int digits_value entries entry_of has_slash spool_dir find_name str_eq hash_new
    hash_val chain_of find hash_add change hash positive_sum negative_sum store
none_left = refl

abbrev visit_or : Option Visit → Visit
visit_or none = skipped spooled no_session
visit_or (some v) = v

-- The status of the lock is 4, so that a search for unprocessed ones passes it over.
abbrev visited : Visit
visited = visit_or (visit_lock unprocessed_types spooled no_session (codes "spool/lock1") (some 0))

visited-eq :
    visit_lock unprocessed_types spooled no_session (codes "spool/lock1") (some 0) ≡ some visited
unfolding visit_lock visit_open visit_free is_wanted read_lock read_lines read_line scan_word
    scan_status decimal starts_with fgets_from is_space skip_space scan_run scan_int digits_value
    str_eq hash_new hash_val chain_of find hash_add change hash positive_sum negative_sum store
visited-eq = refl

visit_lock-once_example :
    visit_lock all_types (process_of visited) no_session (codes "spool/lock1") (some 0)
    ≡ some (skipped (process_of visited) no_session)
visit_lock-once_example =
    visit_lock-once unprocessed_types all_types spooled no_session no_session (codes "spool/lock1")
      0 0 visited visited-eq
