-- ===== src/Tests/Unregistrations.antt =====
-- src/registry/unregister.c: the entry of a repository, and the file of friends.
use srepod.Config.{
  Config, config_open, config_line, config_lines, config_param, config_param_del, scan_pair,
  is_skipped, is_hidden,
}
use srepod.Config.RoundTrip.{AllWritable}
use srepod.HashTable.{hash, positive_sum, negative_sum, hash_new, hash_add, hash_del, change}
use srepod.HashTable.Items.{flat}
use srepod.HashTable.Nodes.{store, unlink}
use srepod.Prelude.{
  contains, true, false, not, none, some, [], ◌∷◌, ◌≡◌, refl, arith, ◌>>=◌, inl, if◌then◌else◌,
  is_nil, is_space, scan_run, skip_space, fgets_from, CString, codes, str_eq, starts_with,
}
use srepod.Registry.{copy_from, string_of, substr, dbexists}
use srepod.Registry.Entry.{del_entry-dbexists}
use srepod.Registry.Friends.{lines_without, un_friends-plain, un_friends-percent, takes_argument}
use srepod.Registry.Lines.{lines, lines_from}
use srepod.Registry.Unregister.{search_text, un_friends, del_entry}
use srepod.Session.Files.{Disk, content_of, find_name}
use srepod.Tests.Registrations.{site, url, config_of}

abbrev pub conf_file : CString
conf_file = codes "#\n/h/r.xml /db/1.dbf\n"

abbrev listed : Config
listed = config_of (config_open (codes "0x1") (codes "gw.conf") conf_file true)

abbrev deleted : Config
deleted = config_of (config_param_del listed (codes "/h/r.xml"))

listed-eq : config_open (codes "0x1") (codes "gw.conf") conf_file true ≡ some listed
unfolding config_open config_lines config_line is_skipped scan_pair hash_new hash_add change hash
    positive_sum negative_sum store fgets_from starts_with is_space scan_run skip_space str_eq
listed-eq = refl

deleted-eq : config_param_del listed (codes "/h/r.xml") ≡ some deleted
unfolding config_open config_lines config_line is_skipped scan_pair hash_new hash_add change hash
    positive_sum negative_sum store fgets_from starts_with is_space scan_run skip_space str_eq
    config_param_del hash_del unlink
deleted-eq = refl

deleted-AllWritable : AllWritable (flat deleted.table.tree)
unfolding config_open config_lines config_line is_skipped scan_pair hash_new hash_add change hash
    positive_sum negative_sum store fgets_from starts_with is_space scan_run skip_space str_eq
    config_param_del hash_del unlink is_hidden
deleted-AllWritable = (inl refl, (inl refl, (inl refl, tt)))

del_entry-dbexists_example :
    (text : CString) × (del_entry site listed (codes "/h/r.xml") ≡ some text)
    × (dbexists site.behind (codes "0x2") (codes "gw.conf") text url ≡ (
        if str_eq (codes "/h/r.xml") (codes "/h/r.xml")
        then some false
        else (config_param listed (codes "/h/r.xml") >>= (λ v. some (not (is_nil v))))))
unfolding hash positive_sum negative_sum is_hidden starts_with substr copy_from string_of
del_entry-dbexists_example =
    del_entry-dbexists site (codes "gw.conf") conf_file (codes "/h/r.xml") listed-eq
      deleted-AllWritable refl site.behind (codes "0x2") url (codes "/h/r.xml") refl refl refl
      deleted-eq

abbrev friends_disk : CString → Disk
friends_disk content = record {
  names = (codes "friends.xml", 0) ∷ [];
  files = record { content = content; mtime = 1 } ∷ [];
}

abbrev friends_file : CString
friends_file = codes "<friends>\n<baseURL>http://g/h/r.xml</baseURL>\n</friends>\n"

abbrev search : CString
search = search_text (codes "http://g") (codes "/h/r.xml")

abbrev percent_file : CString
percent_file = codes "<friends>\n<baseURL>http://g/h/%7Eme.xml</baseURL>\n</friends>\n"

un_friends-plain_example :
    (d : Disk) × (un_friends site
        (friends_disk friends_file)
        (codes "spool")
        (codes "http://g")
        (codes "friends.xml")
        url
      ≡ some (true, d))
    × (content_of d (codes "friends.xml") ≡ some (lines_without search (lines friends_file)))
    × ((q t : CString)
        → str_eq q (codes "friends.xml") ≡ false
        → content_of (friends_disk friends_file) q ≡ some t
        → content_of d q ≡ some t)
unfolding substr copy_from string_of content_of find_name fgets_from lines_from search_text str_eq
un_friends-plain_example =
    un_friends-plain site (friends_disk friends_file) (codes "spool") (codes "http://g")
      (codes "friends.xml") url refl refl (omega arith) refl
      (omega arith, (omega arith, (omega arith, tt))) (refl, (refl, (refl, tt)))

lines_without_test : lines_without search (lines friends_file) ≡ codes "<friends>\n</friends>\n"
unfolding lines_from contains starts_with search_text
lines_without_test = refl

un_friends-percent_example :
    un_friends site
      (friends_disk percent_file)
      (codes "spool")
      (codes "http://g")
      (codes "friends.xml")
      url
    ≡ none
unfolding substr copy_from string_of content_of find_name fgets_from lines_from takes_argument
    contains starts_with search_text str_eq
un_friends-percent_example =
    un_friends-percent site (friends_disk percent_file) (codes "spool") (codes "http://g")
      (codes "friends.xml") url refl refl (omega arith) (codes "<friends>\n" ∷ [])
      (codes "</friends>\n" ∷ []) (codes "<baseURL>http://g/h/") (codes "7Eme.xml</baseURL>\n")
      (omega arith, (omega arith, (omega arith, tt))) refl refl refl refl
