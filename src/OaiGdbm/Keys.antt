-- ===== src/OaiGdbm/Keys.antt =====
-- src/oai-gdbm/oai-gdbm.c: the keys of the records, which `oai_list` takes apart and `oai_get` puts
-- together, and what gdbm is documented to do.
use srepod.Config.Lines.{AllIn, is_black, skip_space-black, scan_run-AllIn}
use srepod.OaiGdbm.{Gdbm, c_string, record_key}
use srepod.OaiGdbm.Listing.{key_parts, scan_key}
use srepod.Prelude.{
  ℕ, zero, suc, ◌+◌, ◌≤◌, ◌==◌, Bool, true, false, not, some, List, [], ◌∷◌, ◌++◌, ◌≡◌, refl, arith,
  if◌then◌else◌, is_some, is_nil, length, length-append, All, CString, codes, starts_with, str_eq,
  scan_run, scan_char, skip_space, append-nil,
}

abbrev pub no_nul : ℕ → Bool
no_nul c = not (c == 0)

abbrev pub no_colon : ℕ → Bool
no_colon c = not (c == b':')

-- The prefix of a format: not empty, without a colon.
pub record IsFormat (s : CString) : Type 0 where
  pub ne_nil : is_nil s ≡ false
  pub colonless : AllIn no_colon s
  pub text : AllIn no_nul s

-- An identifier: not empty, without white space.
pub record IsIdentifier (s : CString) : Type 0 where
  pub ne_nil : is_nil s ≡ false
  pub black : AllIn is_black s
  pub text : AllIn no_nul s

-- A key that is not of a record, or that of a format and an identifier.
pub data Named (key : List ℕ) : Type 0 where
  other : starts_with key (codes "xml:") ≡ false → Named key
  named : (fmt id : CString) → key ≡ record_key fmt id → IsFormat fmt → IsIdentifier id → Named key

unfoldable pub occurrences : List ℕ → List (List ℕ) → ℕ
occurrences key [] = 0
occurrences key (k ∷ keys) = (if str_eq key k then 1 else 0) + occurrences key keys

-- What the manual of gdbm says of an open file that nobody changes: a key exists if it has a value, and
-- the keys that firstkey and nextkey return are those, each once.
pub record IsUnchanged (g : Gdbm) : Type 0 where
  pub exists_fetch : (key : List ℕ) → g.exists key ≡ is_some (g.fetch key)
  pub once : (key : List ℕ) → occurrences key g.keys ≡ (if is_some (g.fetch key) then 1 else 0)
  pub present : All (λ key. is_some (g.fetch key) ≡ true) g.keys

pub c_string-text : (s : CString) → AllIn no_nul s → c_string s ≡ s
unfolding c_string
c_string-text [] a = refl
c_string-text (c ∷ s) a = ground (arith, a.0, c_string-text s a.1)

AllIn-join :
    (set : ℕ → Bool) (s : CString) (c : ℕ) (t : CString)
    → AllIn set s
    → set c ≡ true
    → AllIn set t
    → AllIn set (s ++ c ∷ t)
AllIn-join set [] c t a e b = (e, b)
AllIn-join set (x ∷ s) c t a e b = (a.0, AllIn-join set s c t a.1 e b)

scan_run-all :
    (set : ℕ → Bool) (width : ℕ) (s : CString)
    → AllIn set s
    → length s ≤ width
    → scan_run set width s ≡ (s, [])
unfolding scan_run
scan_run-all set zero [] a l = refl
scan_run-all set zero (c ∷ s) a l = absurd (omega arith)
scan_run-all set (suc width) [] a l = refl
scan_run-all set (suc width) (c ∷ s) a l = ground (arith, a.0, scan_run-all set width s a.1)

record_key-text :
    (fmt id : CString) → IsFormat fmt → IsIdentifier id → AllIn no_nul (record_key fmt id)
record_key-text fmt id f i =
    (refl, (refl, (refl, (refl, AllIn-join no_nul fmt b':' id f.text refl i.text))))

-- What is put together is taken apart again.
pub key_parts-record_key :
    (fmt id : CString)
    → IsFormat fmt
    → IsIdentifier id
    → key_parts (record_key fmt id) ≡ some (fmt, id)
unfolding key_parts scan_key starts_with scan_char
key_parts-record_key fmt id f i =
    rw
      (
        c_string-text (record_key fmt id) (record_key-text fmt id f i),
        scan_run-AllIn no_colon (length (record_key fmt id)) fmt b':' id f.colonless refl
            (omega (arith, length-append fmt (b':' ∷ id))),
        f.ne_nil,
      )
      (let s : skip_space id ≡ id = rw append-nil at (skip_space-black id [] i.ne_nil i.black) in
        rw
          (
            s,
            scan_run-all is_black (length (record_key fmt id)) id i.black
                (omega (arith, length-append fmt (b':' ∷ id))),
            i.ne_nil,
          )
          refl)
