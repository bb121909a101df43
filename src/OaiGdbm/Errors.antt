-- ===== src/OaiGdbm/Errors.antt =====
-- src/oai-gdbm/oai-gdbm.c: the keys that depend on the size of a pointer, and the arguments that have
-- no NULL at their end.
use srepod.Gateway.Main.{configuration_error}
use srepod.OaiGdbm.{Machine, Gdbm, literal_key, get_status}
use srepod.OaiGdbm.Describe.{oai_identify, url_text}
use srepod.OaiGdbm.Open.{
  World, located, locate, open_found, open_database, open_free, oai_open_repository,
}
use srepod.Prelude.{
  ℕ, suc, ◌-◌, ◌≤◌, ◌==◌, Bool, true, false, ◌||◌, Option, none, some, List, [], ◌∷◌, ◌≡◌, refl,
  arith, ◌>>=◌, Option-cases, inl, inr, CString, codes,
}
use srepod.Session.{Session, Process, is_locked}
use srepod.Template.{args_template, count_args, parse_template}

abbrev pub has_nul : List ℕ → Bool
has_nul [] = false
has_nul (c ∷ s) = c == 0 || has_nul s

-- No key of the database has a NUL in it.
abbrev pub NoNulKeys : Gdbm → Type 0
NoNulKeys g = (key : List ℕ) → has_nul key ≡ true → g.fetch key ≡ none

literal_key-has_nul :
    (m : Machine) → 5 ≤ m.pointer_size → has_nul (literal_key m (codes "lck")) ≡ true
unfolding literal_key
literal_key-has_nul m h =
    let d : m.pointer_size - 1 ≡ suc (suc (suc (suc (m.pointer_size - 5)))) = omega arith in
    rw d refl

get_status-wide :
    (m : Machine) (g : Gdbm) → 5 ≤ m.pointer_size → NoNulKeys g → get_status m g ≡ none
unfolding get_status
get_status-wide m g h n = ground (arith, n (literal_key m (codes "lck")) (literal_key-has_nul m h))

-- Where a pointer has more than four bytes, and the database has no key with a NUL in it, no database
-- that is free is opened: oai_open_repository returns OPEN_CONFIGURATION_ERROR, whether or not gdbm
-- opens the file, for the code looks for keys of the size of a pointer less one.
pub oai_open_repository-wide :
    (w : World) (now : ℕ) (p : Process) (st : Session) (dbfile : CString)
    → 5 ≤ w.machine.pointer_size
    → ((g : Gdbm) → w.open_db dbfile ≡ some g → NoNulKeys g)
    → locate w ≡ some (located dbfile)
    → is_locked w.host p.disk dbfile ≡ false
    → oai_open_repository w now p st ≡ some (configuration_error, p)
unfolding oai_open_repository open_found open_database open_free
oai_open_repository-wide w now p st dbfile h n l u =
    rw (l, oai_open_repository, ◌>>=◌)
      (rw u (elim (Option-cases (w.open_db dbfile)) [
        | inl o ↦ rw (o, open_free)
        | inr (g, o) ↦ rw (o, open_free) (rw (get_status-wide w.machine g h (n g o), open_free))
      ]))

-- Where the base url and the address of the administrator are both set, and there is a description of
-- the gateway, oai_identify reads past the end of the array of the three arguments, which has no NULL.
pub oai_identify-desc :
    (m : Machine) (g : Gdbm) (scrap file url admin value : CString) (friends : Option CString)
    → g.fetch (literal_key m (codes "idf")) ≡ some value
    → oai_identify m g scrap
        (record { gwbaseurl = some url; gwadmin = some admin; friends = friends; desc = some file })
      ≡ none
unfolding oai_identify url_text args_template count_args parse_template
oai_identify-desc m g scrap file url admin value none e = ground (arith, e)
oai_identify-desc m g scrap file url admin value (some f) e = ground (arith, e)
