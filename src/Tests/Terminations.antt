-- ===== src/Tests/Terminations.antt =====
-- src/registry/terminator.c: a request to terminate a repository.
use srepod.Config.{config_open, config_line, config_lines, config_param, scan_pair, is_skipped}
use srepod.Config.Lines.{all_in-AllIn, is_black}
use srepod.HashTable.{
  hash, positive_sum, negative_sum, hash_new, hash_add, hash_del, hash_val, change, chain_of,
}
use srepod.HashTable.Nodes.{store, unlink, find}
use srepod.HashTable.Shape.{hash_new-IsHashTable}
use srepod.Prelude.{
  true, false, none, some, [], ◌∷◌, ◌++◌, ◌≡◌, ◌⊎◌, refl, arith, inl, is_space, scan_run,
  skip_space, fgets_from, CString, codes, str_eq, starts_with, pos,
}
use srepod.Registry.{copy_from, string_of, substr, valid_url, all_url_chars, is_url_char}
use srepod.Registry.Marked.{process_request-marked}
use srepod.Registry.Pages.{page_part, page_head, cmd_success}
use srepod.Registry.Requests.{Outcome, request_shown, conf_of, needs_digest}
use srepod.Registry.Terminated.{IsTerminable, process_request-IsTerminable}
use srepod.Registry.Terminator.{
  getdbfile, database_of, check_md5, find_database, lock_database, mark_lock, process_request,
  terminate_url, success_text,
}
use srepod.Session.{
  new_lock, Session, Process, create_lock, is_locked, open_lock, close_lock, read_lock, write_lock,
  read_line, read_lines, scan_word, scan_status, lock_name, spool_dir, hex_output, decimal,
}
use srepod.Session.Files.{find_name, open_excl, content_of, write_file}
use srepod.Session.ReadWrite.{IsWord}
use srepod.Tests.Registrations.{site, url, query, outcome_of}
use srepod.Tests.Unregistrations.{conf_file}

-- A configuration that has the url.
abbrev holder : Process
holder = record {
  lock_hash = hash_new;
  disk = record {
    names = (codes "gw.conf", 0) ∷ [];
    files = record { content = conf_file; mtime = 1 } ∷ [];
  };
}

abbrev dbfile : CString
dbfile = codes "/db/1.dbf"

abbrev output : CString
output =
    page_head
    ++ ([]
        ++ (codes "<h1>Processing request</h1><p>["
            ++ (codes "Mon" ++ (codes "] " ++ (success_text ++ [])))))

found-eq : getdbfile site holder.disk url ≡ some (some dbfile)
unfolding getdbfile database_of substr copy_from string_of conf_of content_of find_name config_open
    config_lines config_line is_skipped scan_pair config_param hash_new hash_add hash_val change
    chain_of hash positive_sum negative_sum store find fgets_from starts_with str_eq is_space
    scan_run skip_space
found-eq = refl

url-valid : valid_url site.behind url ≡ some true
unfolding valid_url substr copy_from string_of all_url_chars is_url_char starts_with
url-valid = refl

page-eq : cmd_success site.pages false success_text ≡ some output
unfolding cmd_success page_part
page-eq = refl

database-IsWord : IsWord dbfile
unfolding is_space
database-IsWord = record {
  ne_nil = refl;
  black = all_in-AllIn is_black dbfile refl;
  fits = omega arith;
}

terminate-IsWord : IsWord (terminate_url url)
unfolding is_space
terminate-IsWord = record {
  ne_nil = refl;
  black = all_in-AllIn is_black (terminate_url url) refl;
  fits = omega arith;
}

process_request-marked_example :
    (q : Process) × (process_request site holder none (some (codes "x")) query
      ≡ some (record { status = 0; output = output; process = q }))
    × ((other : Session)
        → (st : Session) × (open_lock site.host q.disk dbfile other ≡ some st)
          × (read_lock q.disk st
              ≡ some (record st {
                database = dbfile;
                url = terminate_url url;
                status = pos 0;
                modified = site.now;
              })))
unfolding needs_digest is_locked find_name lock_name spool_dir hex_output str_eq hash positive_sum
    negative_sum hash_new
process_request-marked_example =
    process_request-marked site holder none query (codes "x") url dbfile output refl url-valid
      (inl refl) found-eq refl refl hash_new-IsHashTable refl database-IsWord terminate-IsWord
      page-eq

abbrev ended : Outcome
ended = outcome_of (process_request site holder none (some (codes "x")) query)

ended-eq : process_request site holder none (some (codes "x")) query ≡ some ended
unfolding process_request check_md5 needs_digest find_database lock_database mark_lock getdbfile
    database_of substr copy_from string_of conf_of content_of find_name config_open config_lines
    config_line is_skipped scan_pair config_param hash_new hash_add hash_del hash_val change
    chain_of hash positive_sum negative_sum store unlink find fgets_from starts_with str_eq is_space
    scan_run skip_space valid_url all_url_chars is_url_char create_lock new_lock open_excl
    write_file write_lock read_lock read_lines read_line scan_word scan_status close_lock
    request_shown cmd_success page_part lock_name spool_dir hex_output decimal
ended-eq = refl

process_request-IsTerminable_example : (ended.process ≡ holder) ⊎ IsTerminable site holder query
process_request-IsTerminable_example =
    process_request-IsTerminable site holder none (some (codes "x")) query ended ended-eq
