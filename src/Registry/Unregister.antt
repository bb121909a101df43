-- ===== src/Registry/Unregister.antt =====
-- src/registry/unregister.c: a repository is taken out of the configuration of the gateway, out of the
-- file of friends, and off the disk. Its substr is that of the registry.
use srepod.Config.{Config, config_open, config_param, config_param_del, config_save}
use srepod.Prelude.{
  contains, ℕ, ◌==◌, ltb, Bool, true, false, not, Option, none, some, List, [], ◌∷◌, ◌++◌,
  if◌then◌else◌, ◌>>=◌, is_nil, is_some, fgets_from, CString, codes, length,
}
use srepod.Registry.{substr}
use srepod.Registry.Store.{Site, open_create, write_over, open_file}
use srepod.Session.Files.{Disk, find_name, write_file, rename_path, unlink_path, content_of}

-- The content of the configuration file, once the entry has been taken out of the handle `c`.
unfoldable pub del_entry : Site → Config → CString → Option CString
del_entry site c frag = do
  c' ← config_param_del c frag
  saved ← config_save site.fp c'
  some saved.file

-- `un_dbconf`: the name of the database, and the disk. The inner `none` is -1, the outer one an access
-- out of bounds.
unfoldable pub un_dbconf : Site → Disk → CString → CString → Option (Option (CString × Disk))
unfolding del_entry
un_dbconf site d gwdbconf url = elim (open_file d gwdbconf) [
  | none ↦ some none
  | some (fd, content) ↦ do
    c ← config_open site.fp gwdbconf content true
    frag ← substr site.behind url 6 (length url)
    dbfile ← config_param c frag
    if is_nil dbfile
        then some none
        else (del_entry site c frag
            >>= (λ text. some (some (dbfile, write_file d site.now fd text))))
]

-- `fprintf(out, buffer)`. ISO C defines it for a doubled % only: any other conversion takes an argument,
-- which is not there, and a % that begins no conversion is undefined as well. Both are `none`.
unfoldable pub as_format : CString → Option CString
as_format [] = some []
as_format (c ∷ []) = if c == b'%' then none else some (c ∷ [])
as_format (c ∷ d ∷ s) =
    let rest = as_format s in
    let more = as_format (d ∷ s) in
    if c == b'%'
    then (if d == b'%' then rest >>= (λ t. some (b'%' ∷ t)) else none)
    else more >>= (λ t. some (c ∷ t))

-- The loop over the buffers that fgets fills with the file of friends.
unfoldable pub kept_lines : CString → List CString → Option CString
unfolding contains as_format
kept_lines search [] = some []
kept_lines search (buffer ∷ rest) =
    if contains buffer search
    then kept_lines search rest
    else do line ← as_format buffer; lines ← kept_lines search rest; some (line ++ lines)

unfoldable pub search_text : CString → CString → CString
search_text gwbaseurl frag = codes "<baseURL>" ++ (gwbaseurl ++ (frag ++ codes "</baseURL>"))

abbrev pub friends_tmp : CString → CString
friends_tmp spool = spool ++ codes "/friends.tmp"

-- The loop over the lines of `content`, and the renaming of the temporary file, which is open as `fd`:
-- whether it returns 0, and the disk.
unfoldable pub write_friends :
    Site → Disk → ℕ → CString → CString → CString → CString → Option (Bool × Disk)
unfolding kept_lines
write_friends site d fd tmpfile search friends content = do
  text ← kept_lines search (fgets_from 1023 1023 [] content)
  let d₁ = write_over d site.now fd text
  some (elim (rename_path d₁ tmpfile friends) [
    | none ↦ (false, unlink_path d₁ tmpfile)
    | some d₂ ↦ (true, d₂)
  ])

-- `un_friends`, where GWSPOOL is `spool` and GWBASEURL is `base`: whether it returns 0, and the disk.
-- A text that does not fit into `searchstr` is an access out of bounds.
unfoldable pub un_friends :
    Site → Disk → CString → CString → CString → CString → Option (Bool × Disk)
unfolding write_friends search_text
un_friends site d spool base friends url = elim (content_of d friends) [
  | none ↦ some (false, d)
  | some content ↦ do
    let tmpfile : CString = friends_tmp spool
    let (fd, d₁) = open_create d tmpfile
    frag ← substr site.behind url 6 (length url)
    if ltb (length (search_text base frag)) 1024
        then write_friends site d₁ fd tmpfile (search_text base frag) friends content
        else none
]

-- `un_load`: `none` is -1, where there is no such file.
unfoldable pub un_load : Disk → CString → Option Disk
un_load d dbfile = if is_some (find_name dbfile d.names) then some (unlink_path d dbfile) else none

-- The variables that `main` wants, all of which are set.
pub record Settings : Type 0 where
  pub gwdbconf : CString
  pub gwdbfriends : CString
  pub gwspool : CString
  pub gwbaseurl : CString

unfoldable pub read_settings : Site → Option Settings
read_settings site = do
  gwdbconf ← site.environ (codes "GWDBCONF")
  gwdbfriends ← site.environ (codes "GWDBFRIENDS")
  gwspool ← site.environ (codes "GWSPOOL")
  gwbaseurl ← site.environ (codes "GWBASEURL")
  some (record {
    gwdbconf = gwdbconf;
    gwdbfriends = gwdbfriends;
    gwspool = gwspool;
    gwbaseurl = gwbaseurl;
  })

unfoldable pub load_result : Disk → CString → ℕ × Disk
unfolding un_load
load_result d dbfile = elim (un_load d dbfile) [ none ↦ (6, d) | some d' ↦ (0, d') ]

unfoldable pub friends_result : Site → Settings → Disk → CString → CString → Option (ℕ × Disk)
unfolding un_friends load_result
friends_result site s d url dbfile = do
  (done, d') ← un_friends site d s.gwspool s.gwbaseurl s.gwdbfriends url
  some (if done then load_result d' dbfile else (5, d'))

-- From the calls of `stat` on; `root` says whether the effective user is root.
unfoldable pub unregister_url : Site → Settings → Bool → Disk → CString → Option (ℕ × Disk)
unfolding un_dbconf friends_result
unregister_url site s root d url =
    if not (is_some (find_name s.gwdbconf d.names))
    then some (3, d)
    else if not (is_some (find_name s.gwdbfriends d.names))
    then some (3, d)
    else if root
    then some (3, d)
    else (un_dbconf site d s.gwdbconf url >>= (λ r. elim r [
      | none ↦ some (4, d)
      | some (dbfile, d') ↦ friends_result site s d' url dbfile
    ]))

-- `main`, with its argument, if it is one: the exit status, and the disk.
unfoldable pub unregister_main : Site → Bool → Disk → Option CString → Option (ℕ × Disk)
unfolding read_settings unregister_url
unregister_main site root d none = some (1, d)
unregister_main site root d (some url) = elim (read_settings site) [
  | none ↦ some (2, d)
  | some s ↦ unregister_url site s root d url
]
