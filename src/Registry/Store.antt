-- ===== src/Registry/Store.antt =====
-- src/registry/registry.c: `dbpath` and `register_database`, which put a new database into its place and
-- into the configuration of the gateway.
use srepod.Config.{Config, config_open, config_param_add, config_save}
use srepod.Gateway.{Environment}
use srepod.Prelude.{
  ℕ, ◌/◌, ◌%◌, ◌+◌, ◌-◌, ◌==◌, Bool, true, false, not, Option, none, some, List, [], ◌∷◌, ◌++◌, ltb,
  if◌then◌else◌, ◌>>=◌, CString, codes, length, drop, get_elem?,
}
use srepod.Registry.Pages.{Pages}
use srepod.Registry.{substr, secdigest}
use srepod.Session.Files.{Disk, find_name, write_file, rename_path, content_of}
use srepod.Session.{Host}
use srepod.Template.{args_template, parse_template, loose}

-- What the registry asks of its host: `behind` is the memory behind a url, `fp` the text of the file
-- pointer of a configuration, `random` the number of the directory that `rand` chooses, from 1 to 32,
-- and `has_dir` whether a directory is there, or can be made.
pub record Site : Type 0 where
  pub environ : Environment
  pub host : Host
  pub pages : Pages
  pub behind : List ℕ
  pub fp : CString
  pub now : ℕ
  pub random : ℕ
  pub has_dir : CString → Bool

abbrev hex_digit : ℕ → ℕ
hex_digit n = if ltb n 10 then b'0' + n else b'a' + (n - 10)

-- `"%.2x"`. With its NUL it has three bytes, one more than the array `dirname`; the byte behind the
-- array is not used otherwise in a build that works.
unfoldable pub dir_name : ℕ → CString
dir_name r = hex_digit (r / 16) ∷ hex_digit (r % 16) ∷ []

abbrev pub is_absolute : CString → Bool
is_absolute [] = false
is_absolute (c ∷ s) = c == b'/'

-- `dbpath`. The outer `none` is a read through a null pointer, where GWDBPATH is not set; the inner
-- one is NULL.
unfoldable pub dbpath : Site → CString → Option (Option CString)
unfolding dir_name
dbpath site key = elim (site.environ (codes "GWDBPATH")) [
  | none ↦ none
  | some base ↦
      let dir : CString = base ++ (codes "/" ++ dir_name site.random) in
      some (
        if not (is_absolute base)
        then none
        else if not (site.has_dir dir)
        then none
        else some (
            dir
            ++ (codes "/"
                ++ (secdigest site.host (site.environ (codes "REMOTE_ADDR")) key ++ codes ".dbf"))))
]

-- A file that is opened for writing, made if it is not there, and neither truncated nor read.
unfoldable pub open_create : Disk → CString → ℕ × Disk
open_create d path = elim (find_name path d.names) [
  | some i ↦ (i, d)
  | none ↦ (
    length d.files,
    record {
      names = (path, length d.files) ∷ d.names;
      files = d.files ++ record { content = []; mtime = 0 } ∷ [];
    },
  )
]

-- What is written from the start of a file on leaves what it had behind.
unfoldable pub write_over : Disk → ℕ → ℕ → CString → Disk
write_over d now fd text = elim (get_elem? d.files fd) [
  | none ↦ d
  | some f ↦ write_file d now fd (text ++ drop (length text) f.content)
]

abbrev shown : Option CString → CString
shown none = codes "(null)"
shown (some s) = s

-- The part for the file of friends, which `friends` names: whether it succeeds, and the disk. The
-- outer `none` is an access out of bounds.
unfoldable pub add_friend : Site → Disk → CString → CString → Option (Bool × Disk)
unfolding open_create write_over
add_friend site d friends gwurl =
    let tmpfile : CString = shown (site.environ (codes "GWSPOOL")) ++ codes "/friends.tmp" in
    let (fd, d₁) = open_create d tmpfile in
    let xml : CString = codes "<baseURL>" ++ (gwurl ++ codes "</baseURL>") in
    elim (content_of d₁ friends) [
      | none ↦ some (false, d₁)
      | some template ↦ do
        text ←
            parse_template loose (args_template 4 (some xml ∷ some (codes "$0\n$1") ∷ none ∷ []))
              template
        let d₂ = write_over d₁ site.now fd text
        some (elim (rename_path d₂ tmpfile friends) [ none ↦ (false, d₂) | some d₃ ↦ (true, d₃) ])
    ]

-- The content of the configuration file, once an entry has been added to the handle `c`: `none` is an
-- access out of bounds.
unfoldable pub add_entry : Site → Config → CString → CString → Option CString
add_entry site c frag db = do
  c' ← config_param_add c frag db
  saved ← config_save site.fp c'
  some saved.file

-- A file that is there, as its descriptor and its content.
unfoldable pub open_file : Disk → CString → Option (ℕ × CString)
open_file d path = do i ← find_name path d.names; f ← get_elem? d.files i; some (i, f.content)

unfoldable pub add_friends : Site → Disk → CString → Option (Bool × Disk)
unfolding add_friend
add_friends site d gwurl = elim (site.environ (codes "GWDBFRIENDS")) [
  | none ↦ some (true, d)
  | some friends ↦ add_friend site d friends gwurl
]

-- From the move of the database on; the configuration is open as `c`, on the descriptor `conf_fd`.
unfoldable pub move_database :
    Site → Disk → CString → ℕ → Config → CString → CString → CString → Option (Bool × Disk)
unfolding add_entry add_friends
move_database site d dbfile conf_fd c frag gwurl db = elim (rename_path d dbfile db) [
  | none ↦ some (false, d)
  | some d₁ ↦ do
    text ← add_entry site c frag db
    add_friends site (write_file d₁ site.now conf_fd text) gwurl
]

-- From the opening of the configuration on, of which `content` is the content.
unfoldable pub with_path :
    Site → Disk → CString → ℕ → CString → CString → CString → CString → Option (Bool × Disk)
unfolding move_database
with_path site d dbfile conf_fd gwdbconf content frag gwurl = do
  c ← config_open site.fp gwdbconf content true
  path ← dbpath site dbfile
  elim path [
    | none ↦ some (false, d)
    | some db ↦ move_database site d dbfile conf_fd c frag gwurl db
  ]

-- `register_database`: whether it returns 0, `gwurl`, and the disk that it leaves.
unfoldable pub register_database : Site → Disk → CString → CString → Option (Bool × CString × Disk)
unfolding with_path
register_database site d url dbfile = elim (site.environ (codes "GWBASEURL")) [
  | none ↦ some (false, [], d)
  | some gwbaseurl ↦ elim (site.environ (codes "GWDBCONF")) [
    | none ↦ some (false, [], d)
    | some gwdbconf ↦ do
      frag ← substr site.behind url 6 (length url)
      let gwurl : CString = gwbaseurl ++ frag
      elim (open_file d gwdbconf) [
        | none ↦ some (false, gwurl, d)
        | some (fd, content) ↦
            with_path site d dbfile fd gwdbconf content frag gwurl >>= (λ r. some (r.0, gwurl, r.1))
      ]
  ]
]
