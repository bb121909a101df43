-- ===== src/Config.antt =====
-- src/cconfig/cconfig.c: a configuration file read into a hash table, changed there, and written back.
pub mod Lines
pub mod Saved
pub mod RoundTrip
use srepod.Prelude.{
  ℕ, zero, suc, Bool, true, false, ◌-◌, not, ◌&&◌, ◌||◌, Option, none, some, List, [], ◌∷◌, ◌++◌,
  ◌==◌, if◌then◌else◌, ◌>>=◌, is_nil, fgets_from, scan_run, is_space, skip_space, CString, codes,
  starts_with, str_eq, length,
}
use srepod.HashTable.Items.{flat}
use srepod.HashTable.{
  HashTable, hash_new, hash_add, hash_del, hash_val, hash_next_reset, hash_next_key,
}

-- A handle: the table, the content of the open file, and whether it is open in READ_WRITE mode.
pub record Config : Type 0 where
  pub table : HashTable
  pub file : CString
  pub writable : Bool

abbrev pub buff_size : ℕ
buff_size = 1024

-- `sscanf(buffer, "%1024s %1024[^\n]", name, value) == 2`, with the two fields
unfoldable pub scan_pair : CString → Option (CString × CString)
scan_pair buffer =
    let (name, rest) = scan_run (λ c. not (is_space c)) buff_size (skip_space buffer) in
    let (value, _) = scan_run (λ c. not (c == b'\n')) buff_size (skip_space rest) in
    if is_nil name || is_nil value then none else some (name, value)

-- A comment, or a name that the module keeps for itself.
unfoldable pub is_skipped : CString → Bool
unfolding starts_with
is_skipped buffer = starts_with buffer (codes "#") || starts_with buffer (codes "__")

unfoldable pub config_line : HashTable → CString → Option HashTable
config_line h buffer =
    if is_skipped buffer
    then some h
    else elim (scan_pair buffer) [ none ↦ some h | some (name, value) ↦ hash_add h name value ]

unfoldable pub config_lines : HashTable → List CString → Option HashTable
config_lines h [] = some h
config_lines h (buffer ∷ rest) = do h' ← config_line h buffer; config_lines h' rest

-- What a call of `config_open` on a file that can be opened, and locked, leaves in memory. The handle that
-- it returns is the pointer to the table, cast to an `int` and back, which is the table again only where
-- the pointer fits into an `int`; a build with wider pointers is modelled as far as this is so. `fp` is
-- the text of the file pointer, as `%p` prints it. The outer `none` is an access out of bounds.
unfoldable pub config_open : CString → CString → CString → Bool → Option Config
config_open fp filename file writable = do
  h₁ ← config_lines hash_new (fgets_from (buff_size - 1) (buff_size - 1) [] file)
  h₂ ← hash_add h₁ (codes "__FP__") fp
  h₃ ← hash_add h₂ (codes "__FILENAME__") filename
  h₄ ← hash_add h₃ (codes "__FILEMODE__") (if writable then codes "READ_WRITE" else codes "READ")
  some (record { table = h₄; file = file; writable = writable })

unfoldable pub config_param : Config → CString → Option CString
config_param c token = do
  value ← hash_val c.table token
  some (elim value [ none ↦ [] | some v ↦ v ])

unfoldable pub config_param_add : Config → CString → CString → Option Config
config_param_add c token value = do h ← hash_add c.table token value; some (record c { table = h })

unfoldable pub config_param_set : Config → CString → CString → Option Config
config_param_set c token value = do
  h ← hash_del c.table token
  h' ← hash_add h token value
  some (record c { table = h' })

unfoldable pub config_param_del : Config → CString → Option Config
config_param_del c token = do h ← hash_del c.table token; some (record c { table = h })

-- `fprintf(fp, "%s %s\n", key, val)`
abbrev pub saved_line : CString → CString → CString
saved_line key val = key ++ (b' ' ∷ (val ++ b'\n' ∷ []))

unfoldable pub is_hidden : CString → Bool
unfolding starts_with
is_hidden key = starts_with key (codes "__")

-- The loop of `config_save`: what it writes, and the table with its iterator at the end.
unfoldable pub save_items : ℕ → HashTable → Option (CString × HashTable)
save_items zero h = none
save_items (suc fuel) h = elim (hash_next_key h) [
  | none ↦ some ([], h)
  | some (key, h') ↦ do
    val ← hash_val h' key
    (rest, h'') ← save_items fuel h'
    some (
      (if is_hidden key then [] else elim val [ none ↦ [] | some v ↦ saved_line key v ]) ++ rest,
      h'',
    )
]

abbrev pub warning_line : CString
warning_line = codes "# DO NOT EDIT THIS FILE MANUALLY!\n"

-- The code takes the file pointer from the table: without it there is none to write to, and under
-- another text it is no pointer. A file that is open for reading is neither truncated nor written.
unfoldable pub config_save : CString → Config → Option Config
config_save fp c = do
  stored ← hash_val c.table (codes "__FP__")
  pointer ← stored
  (out, h) ← save_items (suc (length (flat c.table.tree))) (hash_next_reset c.table)
  let file : CString = if c.writable then warning_line ++ out else c.file
  if str_eq pointer fp then some (record c { table = h; file = file }) else none
