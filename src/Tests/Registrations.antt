-- ===== src/Tests/Registrations.antt =====
-- src/registry/registry.c: a request for a repository, and its entry in the configuration.
use srepod.Config.{
  Config, config_open, config_line, config_lines, config_param, config_param_add, scan_pair,
  is_skipped, is_hidden,
}
use srepod.Config.Lines.{IsName, IsValue, all_in-AllIn, in_line, is_black}
use srepod.Config.RoundTrip.{AllWritable}
use srepod.HashTable.{
  hash, positive_sum, negative_sum, hash_new, hash_add, hash_val, change, chain_of, hash_del,
}
use srepod.HashTable.Items.{flat}
use srepod.HashTable.Nodes.{store, find, unlink}
use srepod.Prelude.{
  ◌%◌, true, false, not, Option, none, some, [], ◌∷◌, ◌≡◌, ◌⊎◌, refl, arith, ◌>>=◌, inl, inr,
  if◌then◌else◌, is_nil, is_space, fgets_from, CString, codes, length, replicate, str_eq,
  starts_with, pos,
}
use srepod.Registry.{
  copy_from, string_of, substr, dbexists, valid_url, all_url_chars, is_url_char, is_file,
}
use srepod.Registry.Allowed.{IsAllowed, process_request-IsAllowed}
use srepod.Registry.Entry.{add_entry-dbexists}
use srepod.Registry.Later.{process_request-pending}
use srepod.Registry.Pages.{page_part, cmd_success}
use srepod.Registry.Requests.{
  Outcome, request_shown, tmp_dbfile, link_copy, ask_daemon, check_spool, check_registered,
  check_digest, process_request, is_registered, conf_of, needs_digest,
}
use srepod.Registry.Store.{Site, add_entry}
use srepod.Session.{
  new_lock, Session, Process, create_lock, is_locked, close_lock, lock_name, spool_dir, hex_output,
  decimal,
}
use srepod.Session.Files.{find_name, open_excl, link_path, content_of, write_file}
use srepod.Session.ReadWrite.{IsWord}

abbrev pub site : Site
site = record {
  environ = λ name.
      if str_eq name (codes "GWDBCONF")
      then some (codes "gw.conf")
      else if str_eq name (codes "GWCONFIRM")
      then some (codes "0")
      else none;
  host = record {
    gwspool = some (codes "spool");
    md5 = λ s. replicate 2 (length s % 256);
    creates = λ path. true;
    streams = true;
  };
  pages = record {
    registry_html = none;
    header_html = none;
    footer_html = none;
    date = codes "Mon";
  };
  behind = replicate 12 1;
  fp = codes "0x1";
  now = 5;
  random = 7;
  has_dir = λ dir. true;
}

abbrev no_session : Session
no_session = record { lockfile = []; database = []; url = []; status = pos 0; fd = 0; modified = 0 }

-- A configuration without entries.
abbrev process : Process
process = record {
  lock_hash = hash_new;
  disk = record {
    names = (codes "gw.conf", 0) ∷ [];
    files = record { content = codes "#\n"; mtime = 1 } ∷ [];
  };
}

abbrev pub url : CString
url = codes "http://h/r.xml"

abbrev pub query : CString → Option CString
query name = if str_eq name (codes "url") then some url else none

abbrev pub outcome_of : Option Outcome → Outcome
outcome_of none = record { status = 9; output = []; process = process }
outcome_of (some o) = o

abbrev outcome : Outcome
outcome = outcome_of (process_request site process no_session query)

outcome-eq : process_request site process no_session query ≡ some outcome
unfolding process_request valid_url substr copy_from string_of all_url_chars is_url_char
    check_digest needs_digest check_registered is_registered conf_of content_of find_name dbexists
    config_open config_lines config_line is_skipped scan_pair config_param hash_new hash_add
    hash_val change chain_of hash positive_sum negative_sum store find check_spool is_locked is_file
    ask_daemon create_lock new_lock open_excl link_copy link_path close_lock hash_del unlink
    request_shown cmd_success page_part tmp_dbfile lock_name spool_dir hex_output fgets_from
    starts_with str_eq decimal write_file
outcome-eq = refl

process_request-IsAllowed_example : (outcome.process ≡ process) ⊎ IsAllowed site process query
process_request-IsAllowed_example =
    process_request-IsAllowed site process no_session query outcome outcome-eq

abbrev taken : Outcome
taken = outcome_of (check_spool site process no_session url)

taken-eq : check_spool site process no_session url ≡ some taken
unfolding find_name hash_new change hash positive_sum negative_sum check_spool is_locked is_file
    ask_daemon create_lock new_lock open_excl link_copy link_path close_lock hash_del unlink
    request_shown cmd_success page_part tmp_dbfile lock_name spool_dir hex_output str_eq decimal
    write_file
taken-eq = refl

pub url-IsWord : IsWord url
unfolding is_space
url-IsWord = record { ne_nil = refl; black = all_in-AllIn is_black url refl; fits = omega arith }

dbfile-IsWord : IsWord (tmp_dbfile site url)
unfolding is_space tmp_dbfile lock_name spool_dir hex_output
dbfile-IsWord = record {
  ne_nil = refl;
  black = all_in-AllIn is_black (codes "spool/tmpdbf0e0e") refl;
  fits = omega arith;
}

abbrev next_process : Process
next_process = record { lock_hash = hash_new; disk = taken.process.disk }

still-new : is_registered site next_process.disk url ≡ some (some false)
unfolding find_name hash_new change hash positive_sum negative_sum check_spool is_locked is_file
    ask_daemon create_lock new_lock open_excl link_copy link_path close_lock hash_del unlink
    request_shown cmd_success page_part tmp_dbfile lock_name spool_dir hex_output str_eq decimal
    write_file is_registered conf_of content_of dbexists substr copy_from string_of config_open
    config_lines config_line is_skipped scan_pair config_param hash_add hash_val chain_of store find
    fgets_from starts_with
still-new = refl

url-valid : valid_url site.behind url ≡ some true
unfolding valid_url substr copy_from string_of all_url_chars is_url_char starts_with
url-valid = refl

process_request-pending_example :
    process_request site next_process no_session query
    ≡ request_shown site next_process true
        (codes "Processing request : request is pending...please wait...")
unfolding find_name hash_new change hash positive_sum negative_sum check_spool is_locked is_file
    ask_daemon create_lock new_lock open_excl link_copy link_path close_lock hash_del unlink
    request_shown cmd_success page_part tmp_dbfile lock_name spool_dir hex_output str_eq decimal
    write_file needs_digest
process_request-pending_example =
    process_request-pending site site process next_process no_session no_session url query taken
      refl refl refl taken-eq refl (omega arith) dbfile-IsWord url-IsWord refl refl refl refl
      url-valid (inl refl) still-new

abbrev pub config_of : Option Config → Config
config_of none = record { table = hash_new; file = []; writable = false }
config_of (some c) = c

abbrev opened : Config
opened = config_of (config_open (codes "0x1") (codes "gw.conf") (codes "#\n") true)

abbrev added : Config
added = config_of (config_param_add opened (codes "/h/r.xml") (codes "/db/1.dbf"))

opened-eq : config_open (codes "0x1") (codes "gw.conf") (codes "#\n") true ≡ some opened
unfolding config_open config_lines config_line is_skipped hash_new hash_add change hash positive_sum
    negative_sum store fgets_from starts_with
opened-eq = refl

added-eq : config_param_add opened (codes "/h/r.xml") (codes "/db/1.dbf") ≡ some added
unfolding config_open config_lines config_line is_skipped hash_new hash_add change hash positive_sum
    negative_sum store fgets_from starts_with config_param_add
added-eq = refl

path-IsName : IsName (codes "/h/r.xml")
unfolding is_skipped is_space
path-IsName = record {
  ne_nil = refl;
  black = all_in-AllIn is_black (codes "/h/r.xml") refl;
  plain = refl;
}

db-IsValue : IsValue (codes "/db/1.dbf")
unfolding is_space
db-IsValue = record { one_line = all_in-AllIn in_line (codes "/db/1.dbf") refl; starts = refl }

added-AllWritable : AllWritable (flat added.table.tree)
unfolding config_open config_lines config_line is_skipped hash_new hash_add change hash positive_sum
    negative_sum store fgets_from starts_with config_param_add is_hidden
added-AllWritable =
    (inl refl, (inl refl, (inl refl, (inr (path-IsName, db-IsValue, omega arith), tt))))

add_entry-dbexists_example :
    (text : CString) × (add_entry site opened (codes "/h/r.xml") (codes "/db/1.dbf") ≡ some text)
    × (dbexists site.behind (codes "0x2") (codes "gw.conf") text url ≡ (
        if str_eq (codes "/h/r.xml") (codes "/h/r.xml")
        then some true
        else (config_param opened (codes "/h/r.xml") >>= (λ v. some (not (is_nil v))))))
unfolding hash positive_sum negative_sum is_hidden starts_with substr copy_from string_of
add_entry-dbexists_example =
    add_entry-dbexists site (codes "gw.conf") (codes "#\n") (codes "/h/r.xml") opened-eq
      added-AllWritable refl site.behind (codes "0x2") url (codes "/h/r.xml") refl refl refl
      (codes "/db/1.dbf") added-eq refl
