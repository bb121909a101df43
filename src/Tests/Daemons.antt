-- ===== src/Tests/Daemons.antt =====
-- src/daemon/main.c: a daemon with five free slots, and a spool with one lock file to process.
use srepod.Prelude.{
  ℕ, true, false, Option, none, some, List, [], ◌∷◌, ◌≡◌, inl, refl, arith, is_space, skip_space,
  scan_run, scan_int, digits_value, fgets_from, starts_with, codes, str_eq, length, replicate,
  get_elem?, pos,
}
use srepod.Config.{config_param}
use srepod.HashTable.Nodes.{find, store, unlink}
use srepod.HashTable.Shape.{hash_new-IsHashTable}
use srepod.HashTable.{
  HashTable, hash, positive_sum, negative_sum, change, chain_of, hash_new, hash_add, hash_del,
  hash_val,
}
use srepod.Session.Files.{find_name, remove_name, unlink_path, entries, entry_of, has_slash}
use srepod.Session.{
  Host, Session, Process, spool_dir, decimal, lock_text, release_lock, close_lock, read_line,
  read_lines, read_lock, scan_word, scan_status, is_wanted, visit_lock, visit_open, visit_free,
  go_on, next_entries, next_lock,
}
use srepod.Daemon.Check.{count_lock, Settled, check_status-Settled}
use srepod.Daemon.Child.{
  ChildHost, ChildExit, run_child, run_child-ChildExit, start_child, process_request,
  command_result, exit_status, finish_child, atoi, set_id,
}
use srepod.Daemon.Loop.{IsSound}
use srepod.Daemon.Race.{fork_failed-loop_round, spawn_child-early, IsUnknown}
use srepod.Daemon.Slots.{pending, finished, failed, Request, Slot, free, live, find_free, same_pid}
use srepod.Daemon.Steps.{round, stay, go, Steps-IsSound}
use srepod.Daemon.{
  Daemon, forked, fork_failed, Outcome, exited, is_done, check_request, check_slot, check_status,
  get_request, store_pid, early_signal, spawn_child, process_lock, look_for_lock, loop_round,
}

abbrev host : Host
host = record {
  gwspool = some (codes "s");
  md5 = λ s. replicate 16 (length s);
  creates = λ path. true;
  streams = true;
}

abbrev no_session : Session
no_session = record { lockfile = []; database = []; url = []; status = pos 0; fd = 0; modified = 0 }

abbrev spooled : Process
spooled = record {
  lock_hash = hash_new;
  disk = record {
    names = (codes "s/lock1", 0) ∷ [];
    files = record { content = lock_text (codes "db") (codes "u") (pos 0); mtime = 3 } ∷ [];
  };
}

abbrev booted : Daemon
booted = record {
  requests = replicate 5 free;
  process = spooled;
  session = no_session;
  do_shutdown = false;
}

booted-IsSound : IsSound booted.process booted.requests
unfolding count_lock
booted-IsSound = record {
  shape = hash_new-IsHashTable;
  size = refl;
  alive = (tt, (tt, (tt, (tt, (tt, tt)))));
  locks = λ q. inl refl;
}

abbrev daemon_of : Option (Outcome × Daemon) → Daemon
daemon_of none = booted
daemon_of (some r) = r.1

abbrev outcome_of : Option (Outcome × Daemon) → Outcome
outcome_of none = exited
outcome_of (some r) = r.0

abbrev first_round : Option (Outcome × Daemon)
first_round = loop_round host (forked (pos 42) none) booted

first_round-eq : first_round ≡ some (outcome_of first_round, daemon_of first_round)
unfolding loop_round check_status check_slot look_for_lock process_lock get_request find_free
    spawn_child early_signal store_pid next_lock next_entries go_on visit_lock visit_open visit_free
    is_wanted read_lock read_lines read_line scan_word scan_status decimal starts_with fgets_from
    is_space skip_space scan_run scan_int digits_value entries entry_of has_slash spool_dir
    find_name str_eq hash_new hash_val chain_of find hash_add change hash positive_sum negative_sum
    store
first_round-eq = refl

Steps-IsSound_example : IsSound (daemon_of first_round).process (daemon_of first_round).requests
Steps-IsSound_example =
    Steps-IsSound {host = host} {d = booted} {d' = daemon_of first_round}
      (go (round (pos 42) none (outcome_of first_round) first_round-eq) stay) booted-IsSound

abbrev request : Request
request = record {
  pid = pos 42;
  status = finished;
  session = record no_session { lockfile = codes "s/lock1" };
}

abbrev slots : List Slot
slots = free ∷ live request ∷ live (record request { status = pending }) ∷ []

abbrev checked_of : Option (ℕ × Process × List Slot) → ℕ × Process × List Slot
checked_of none = (0, spooled, [])
checked_of (some r) = r

abbrev after_check : ℕ × Process × List Slot
after_check = checked_of (check_status spooled slots)

checked-eq : check_status spooled slots ≡ some (after_check.0, after_check.1, after_check.2)
unfolding check_status check_slot is_done check_request release_lock unlink_path remove_name str_eq
    hash_new hash_del change hash positive_sum negative_sum unlink
checked-eq = refl

check_status-Settled_example : Settled request after_check.1 (get_elem? after_check.2 1)
check_status-Settled_example =
    check_status-Settled spooled after_check.1 slots after_check.2 after_check.0 1 request
      checked-eq refl

abbrev fork_lost : Option (Outcome × Daemon)
fork_lost = process_lock fork_failed booted (some (1, slots))

fork_lost-eq : fork_lost ≡ some (outcome_of fork_lost, daemon_of fork_lost)
unfolding process_lock spawn_child close_lock hash_new hash_del change hash positive_sum
    negative_sum unlink
fork_lost-eq = refl

fork_failed-loop_round_example : loop_round host (forked (pos 43) none) (daemon_of fork_lost) ≡ none
fork_failed-loop_round_example =
    fork_failed-loop_round host (forked (pos 43) none) booted (daemon_of fork_lost) 1 slots
      (outcome_of fork_lost) (omega arith) fork_lost-eq

pid-IsUnknown : IsUnknown (pos 7) (daemon_of first_round).requests
unfolding same_pid loop_round check_status check_slot look_for_lock process_lock get_request
    find_free spawn_child early_signal store_pid next_lock next_entries go_on visit_lock visit_open
    visit_free is_wanted read_lock read_lines read_line scan_word scan_status decimal starts_with
    fgets_from is_space skip_space scan_run scan_int digits_value entries entry_of has_slash
    spool_dir find_name str_eq hash_new hash_val chain_of find hash_add change hash positive_sum
    negative_sum store
pid-IsUnknown = (refl, tt)

spawn_child-early_example :
    spawn_child (forked (pos 7) (some failed)) (daemon_of first_round) 0
    ≡ spawn_child (forked (pos 7) none) (daemon_of first_round) 0
spawn_child-early_example = spawn_child-early (daemon_of first_round) 0 (pos 7) failed pid-IsUnknown

abbrev or_new : Option HashTable → HashTable
or_new none = hash_new
or_new (some h) = h

abbrev child_host : ChildHost
child_host = record {
  gwhome = codes "/srepod";
  config = record {
    table = or_new (hash_add hash_new (codes "create_cache") (codes "cache"));
    file = [];
    writable = false;
  };
  system = λ command d. (0, d);
  chdir = true;
  setgid = λ n. true;
  setuid = λ n. true;
}

abbrev given : Session
given = record no_session { database = codes "db"; url = codes "u" }

child-run : run_child child_host spooled given ≡ some (0, spooled)
unfolding run_child start_child process_request command_result exit_status finish_child atoi set_id
    config_param scan_int skip_space is_space scan_run digits_value hash_new hash_val chain_of find
    hash_add change hash positive_sum negative_sum store str_eq
child-run = refl

run_child-ChildExit_example : ChildExit child_host spooled given 0 spooled
run_child-ChildExit_example = run_child-ChildExit child_host spooled given 0 spooled child-run
