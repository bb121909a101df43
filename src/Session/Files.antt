-- ===== src/Session/Files.antt =====
-- The part of the file system that src/session/session.c works on: names, and the files behind them.
use srepod.Prelude.{
  ℕ, Bool, false, ◌||◌, Option, none, some, List, [], ◌∷◌, ◌++◌, ◌==◌, if◌then◌else◌, is_some,
  CString, str_eq, str_eq_iff, length, set, get_elem?, get_elem?-set, ◌>>=◌, arith, refl, ◌≡◌, ◌<◌,
}

pub record File : Type 0 where
  pub content : CString
  pub mtime : ℕ

-- A file stays when its name is gone, for those who have it open.
pub record Disk : Type 0 where
  pub names : List (CString × ℕ)
  pub files : List File

unfoldable pub find_name : CString → List (CString × ℕ) → Option ℕ
find_name path [] = none
find_name path ((n, i) ∷ names) = if str_eq path n then some i else find_name path names

unfoldable pub remove_name : CString → List (CString × ℕ) → List (CString × ℕ)
remove_name path [] = []
remove_name path ((n, i) ∷ names) =
    if str_eq path n then remove_name path names else (n, i) ∷ remove_name path names

-- `open` with `O_CREAT | O_EXCL`
unfoldable pub open_excl : Disk → CString → Option (ℕ × Disk)
open_excl d path =
    if is_some (find_name path d.names)
    then none
    else some (
      length d.files,
      record {
        names = (path, length d.files) ∷ d.names;
        files = d.files ++ record { content = []; mtime = 0 } ∷ [];
      },
    )

unfoldable pub unlink_path : Disk → CString → Disk
unlink_path d path = record d { names = remove_name path d.names }

-- `link`; `none` is -1: there is no such file, or the new name is taken.
unfoldable pub link_path : Disk → CString → CString → Option Disk
link_path d old new = do
  i ← find_name old d.names
  if is_some (find_name new d.names) then none else some (record d { names = (new, i) ∷ d.names })

unfoldable pub same_file : ℕ → Option ℕ → Bool
same_file i none = false
same_file i (some j) = i == j

-- `rename`; `none` is -1. Two names of one file stay as they are.
unfoldable pub rename_path : Disk → CString → CString → Option Disk
rename_path d old new = do
  i ← find_name old d.names
  some (
      if same_file i (find_name new d.names)
      then d
      else record d { names = (new, i) ∷ remove_name new (remove_name old d.names) })

-- The content of the file that a path names.
unfoldable pub content_of : Disk → CString → Option CString
content_of d path = do i ← find_name path d.names; f ← get_elem? d.files i; some f.content

-- The whole content of an open file, written at the time `now`
unfoldable pub write_file : Disk → ℕ → ℕ → CString → Disk
write_file d now fd content = record d {
  files = set d.files fd (record { content = content; mtime = now });
}

-- What stands behind `dir` and a slash, without another slash.
unfoldable pub entry_of : CString → CString → Option CString
entry_of [] (c ∷ s) = if c == b'/' then some s else none
entry_of (d ∷ dir) (c ∷ s) = if d == c then entry_of dir s else none
entry_of _ [] = none

unfoldable pub has_slash : CString → Bool
has_slash [] = false
has_slash (c ∷ s) = c == b'/' || has_slash s

-- `readdir`, call by call
unfoldable pub entries : CString → List (CString × ℕ) → List CString
entries dir [] = []
entries dir ((n, i) ∷ names) = elim (entry_of dir n) [
  | none ↦ entries dir names
  | some e ↦ if has_slash e then entries dir names else e ∷ entries dir names
]

pub find_name-remove_name :
    (q path : CString) (names : List (CString × ℕ))
    → find_name q (remove_name path names) ≡ (if str_eq path q then none else find_name q names)
unfolding find_name remove_name
find_name-remove_name q path [] = ground arith
find_name-remove_name q path ((n, i) ∷ names) = ground (
  arith,
  str_eq_iff path n,
  str_eq_iff q n,
  str_eq_iff path q,
  find_name-remove_name q path names,
)

pub get_elem?-snoc : (fs : List File) (f : File) → get_elem? (fs ++ f ∷ []) (length fs) ≡ some f
get_elem?-snoc [] f = refl
get_elem?-snoc (g ∷ fs) f = get_elem?-snoc fs f

-- What has been written to a file is there.
pub write_file-content :
    (d : Disk) (now fd : ℕ) (content : CString)
    → fd < length d.files
    → get_elem? (write_file d now fd content).files fd
      ≡ some (record { content = content; mtime = now })
unfolding write_file
write_file-content d now fd content l =
    ground (arith, get_elem?-set d.files fd fd (record { content = content; mtime = now }) l)
