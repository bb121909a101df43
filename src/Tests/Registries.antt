-- ===== src/Tests/Registries.antt =====
-- src/registry/registry.c: a url, an environment and a lock.
use srepod.Prelude.{
  ◌-◌, true, Option, none, some, [], ◌∷◌, ◌≡◌, ◌↔◌, refl, arith, is_space, replicate, CString,
  codes, starts_with, length, drop, pos,
}
use srepod.Gateway.{Environment}
use srepod.Registry.Urls.{IsString, valid_url_iff}
use srepod.Registry.{copy_from, string_of, substr, is_url_char, all_url_chars, valid_url}
use srepod.Session.Files.{Disk, open_excl, find_name}
use srepod.Session.ReadWrite.{IsWord}
use srepod.Session.{new_lock, Host, Session, create_lock}

abbrev url : CString
url = codes "http://a/b.xml"

url-IsString : IsString url
url-IsString = (
  refl,
  (
    refl,
    (
      refl,
      (refl, (refl, (refl, (refl, (refl, (refl, (refl, (refl, (refl, (refl, (refl, tt))))))))))),
    ),
  ),
)

url-valid : valid_url (1 ∷ []) url ≡ some true
unfolding valid_url substr copy_from string_of all_url_chars is_url_char starts_with
url-valid = refl

valid_url_iff_example : (true ≡ true) ↔ (
    (starts_with url (codes "http://") ≡ true)
    × (starts_with (drop (length url - 4) url) (codes ".xml") ≡ true)
    × (all_url_chars url ≡ true))
valid_url_iff_example = valid_url_iff (1 ∷ []) url true url-IsString url-valid

url-http : starts_with url (codes "http://") ≡ true
unfolding starts_with
url-http = refl

abbrev no_environment : Environment
no_environment name = none

abbrev host : Host
host = record {
  gwspool = none;
  md5 = λ s. replicate 16 (length s);
  creates = λ path. true;
  streams = true;
}

abbrev no_session : Session
no_session = record { lockfile = []; database = []; url = []; status = pos 0; fd = 0; modified = 0 }

abbrev empty_disk : Disk
empty_disk = record { names = []; files = [] }

abbrev created_of : Option (Session × Disk) → Session × Disk
created_of none = (no_session, empty_disk)
created_of (some r) = r

abbrev created : Session × Disk
created = created_of (create_lock host 5 empty_disk (codes "db") (codes "u"))

created-eq : create_lock host 5 empty_disk (codes "db") (codes "u") ≡ some (created.0, created.1)
unfolding create_lock new_lock open_excl find_name
created-eq = refl

db-IsWord : IsWord (codes "db")
unfolding is_space
db-IsWord = record { ne_nil = refl; black = (refl, (refl, tt)); fits = omega arith }

u-IsWord : IsWord (codes "u")
unfolding is_space
u-IsWord = record { ne_nil = refl; black = (refl, tt); fits = omega arith }
