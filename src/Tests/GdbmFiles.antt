-- ===== src/Tests/GdbmFiles.antt =====
-- src/oai-gdbm/oai-gdbm.c: a gdbm file with one record, and two machines.
use srepod.Config.Lines.{all_in-AllIn}
use srepod.OaiGdbm.{Machine, Gdbm}
use srepod.OaiGdbm.Errors.{has_nul}
use srepod.OaiGdbm.Keys.{
  IsFormat, IsIdentifier, IsUnchanged, Named, other, named, occurrences, no_nul, no_colon,
}
use srepod.Prelude.{
  ℕ, true, false, Option, none, some, List, [], ◌∷◌, ◌≡◌, refl, arith, if◌then◌else◌, is_some,
  is_space, inl, inr, Bool-cases, All, CString, codes, replicate, str_eq, str_eq_iff, starts_with,
}

-- A file as the list of its pairs.
abbrev pub Table : Type 0
Table = List (CString × CString)

unfoldable pub look_up : List ℕ → Table → Option (List ℕ)
look_up key [] = none
look_up key ((k, v) ∷ t) = if str_eq key k then some v else look_up key t

unfoldable pub names : Table → List (List ℕ)
names [] = []
names ((k, v) ∷ t) = k ∷ names t

abbrev pub gdbm_of : Table → Gdbm
gdbm_of t = record {
  fetch = λ key. look_up key t;
  exists = λ key. is_some (look_up key t);
  keys = names t;
}

abbrev pub Distinct : Table → Type 0
Distinct [] = Unit
Distinct ((k, v) ∷ t) = (look_up k t ≡ none) × Distinct t

look_up-occurrences :
    (t : Table) (key : List ℕ)
    → Distinct t
    → occurrences key (names t) ≡ (if is_some (look_up key t) then 1 else 0)
unfolding look_up names occurrences
look_up-occurrences [] key d = ground arith
look_up-occurrences ((k, v) ∷ t) key d = elim (Bool-cases (str_eq key k)) [
  | inl e ↦
      let q : key ≡ k = (str_eq_iff key k).0 e in
      let n : look_up key t ≡ none = rw q d.0 in ground (arith, e, n, look_up-occurrences t key d.1)
  | inr e ↦ ground (arith, e, look_up-occurrences t key d.1)
]

pub look_up-has_nul :
    (t : Table) (key : List ℕ)
    → All (λ k. has_nul k ≡ false) (names t)
    → has_nul key ≡ true
    → look_up key t ≡ none
unfolding look_up names
look_up-has_nul [] key a h = refl
look_up-has_nul ((k, v) ∷ t) key a h =
    ground (arith, a.0, str_eq_iff key k, look_up-has_nul t key a.1 h)

abbrev pub table : Table
table =
    (codes "lck", codes "0")
    ∷ (codes "frm", codes "http://h/r.xml")
    ∷ (codes "lmf", codes "Mon")
    ∷ (codes "idf", codes "<Identify>")
    ∷ (codes "fmt:oai_dc", codes "<f/>")
    ∷ (codes "xml:oai_dc:id1", codes "<r1/>")
    ∷ (codes "dat:oai_dc:id1", codes "2003-01-01")
    ∷ []

abbrev pub file : Gdbm
file = gdbm_of table

pub oai_dc-IsFormat : IsFormat (codes "oai_dc")
oai_dc-IsFormat = record {
  ne_nil = refl;
  colonless = all_in-AllIn no_colon (codes "oai_dc") refl;
  text = all_in-AllIn no_nul (codes "oai_dc") refl;
}

pub id1-IsIdentifier : IsIdentifier (codes "id1")
unfolding is_space
id1-IsIdentifier = record {
  ne_nil = refl;
  black = (refl, (refl, (refl, tt)));
  text = all_in-AllIn no_nul (codes "id1") refl;
}

pub file-IsUnchanged : IsUnchanged file
unfolding look_up names starts_with str_eq
file-IsUnchanged = record {
  exists_fetch = λ key. refl;
  once = λ key.
      look_up-occurrences table key (refl, (refl, (refl, (refl, (refl, (refl, (refl, tt)))))));
  present = (refl, (refl, (refl, (refl, (refl, (refl, (refl, tt)))))));
}

pub file-Named : All Named file.keys
unfolding look_up names starts_with str_eq
file-Named = (
  other refl,
  (
    other refl,
    (
      other refl,
      (
        other refl,
        (
          other refl,
          (
            named (codes "oai_dc") (codes "id1") refl oai_dc-IsFormat id1-IsIdentifier,
            (other refl, tt),
          ),
        ),
      ),
    ),
  ),
)

abbrev pub wide : Machine
wide = record { pointer_size = 8; behind_literal = λ s. replicate 8 0; behind_block = [] }

abbrev pub narrow : Machine
narrow = record { pointer_size = 4; behind_literal = λ s. replicate 8 0; behind_block = [] }
