-- ===== src/OaiGdbm/Agree.antt =====
-- src/oai-gdbm/oai-gdbm.c: `oai_list` agrees with the functions that look up one record.
use srepod.Gateway.Repository.{ListArguments}
use srepod.OaiGdbm.{Gdbm, record_key, oai_get, oai_identifier_exists}
use srepod.OaiGdbm.Items.{count_id, visit_all-count}
use srepod.OaiGdbm.Keys.{
  IsFormat, IsIdentifier, Named, other, named, IsUnchanged, key_parts-record_key,
}
use srepod.OaiGdbm.Listing.{
  Entry, key_parts, stamp_of, visit, visit_all, visit_prefix, parse_bound, list_entries,
  record_text,
}
use srepod.Prelude.{
  ℕ, true, ◌&&◌, Option, none, some, List, [], ◌∷◌, ◌++◌, ◌≡◌, arith, Option-cases, inl, inr,
  if◌then◌else◌, is_some, All, CString, codes, str_eq, str_eq_iff, subst-some, ◌∙◌, sym,
  >>=-eq-some,
}
use srepod.Time.{DateStruct}

-- The entries of a list are those of the loop, for the dates as they are parsed.
list_entries-visit_all :
    (g : Gdbm) (args : ListArguments) (p : CString) (from until : Option DateStruct)
    (es : List Entry)
    → args.metadata_prefix ≡ some p
    → parse_bound args.from ≡ some from
    → parse_bound args.until ≡ some until
    → list_entries g args ≡ some (some es)
    → es ≡ visit_all g from until p g.keys
unfolding list_entries visit_prefix
list_entries-visit_all g args p from until es m f u e = let r = rw (f, u, m) at e in ground arith

-- Where gdbm keeps to its manual, and every key of a record in the file has a format without a colon and
-- an identifier without white space, a list in such a format names such an identifier once if GetRecord
-- has it in the format, and its datestamp can be read and is in the range of the dates, and not at all
-- otherwise.
pub list_entries-identifier_exists :
    (g : Gdbm) (args : ListArguments) (p id : CString) (from until : Option DateStruct)
    (es : List Entry)
    → IsUnchanged g
    → All Named g.keys
    → IsFormat p
    → IsIdentifier id
    → args.metadata_prefix ≡ some p
    → parse_bound args.from ≡ some from
    → parse_bound args.until ≡ some until
    → list_entries g args ≡ some (some es)
    → count_id id es ≡ (
        if oai_identifier_exists g id (some p) && is_some (stamp_of g from until p id)
        then 1
        else 0)
unfolding oai_identifier_exists
list_entries-identifier_exists g args p id from until es w k a b m f u e =
    rw (list_entries-visit_all g args p from until es m f u e) (
      ground (
        arith,
        visit_all-count g from until p id a b g.keys k,
        w.once (record_key p id),
        w.exists_fetch (record_key p id),
      ))

-- What GetRecord prints for an entry of a list in a format.
abbrev pub IsGot : Gdbm → CString → Entry → Type 0
IsGot g p e = oai_get g e.id p ≡ codes "<GetRecord>" ++ (record_text g e ++ codes "</GetRecord>")

key_of_parts :
    (key : List ℕ) (fmt id : CString)
    → Named key
    → key_parts key ≡ some (fmt, id)
    → key ≡ record_key fmt id
unfolding key_parts
key_of_parts key fmt id (other e) k = absurd (ground (arith, e, k))
key_of_parts key fmt id (named f i e a b) k =
    let q : ◌≡◌ {A = Option (CString × CString)} (some (f, i)) (some (fmt, id)) =
      sym (key_parts-record_key f i a b) ∙ rw e at k in
    let x : f ≡ fmt = ground arith in let y : i ≡ id = ground arith in e ∙ rw (x, y)

IsGot-fetch :
    (g : Gdbm) (p id stamp : CString) (key : List ℕ)
    → key ≡ record_key p id
    → is_some (g.fetch key) ≡ true
    → IsGot g p (record { key = key; id = id; stamp = stamp })
unfolding oai_get record_text
IsGot-fetch g p id stamp key e s = elim (Option-cases (g.fetch key)) [
  | inl n ↦ absurd (ground (arith, n, s))
  | inr (value, n) ↦
      let k : g.fetch (record_key p id) ≡ some value = rw (← e) n in ground (arith, n, k)
]

visit-IsGot :
    (g : Gdbm) (from until : Option DateStruct) (p : CString) (key : List ℕ) (e : Entry)
    → Named key
    → is_some (g.fetch key) ≡ true
    → visit g from until p key ≡ some e
    → IsGot g p e
unfolding visit
visit-IsGot g from until p key e n s v =
    let ((fmt, id), k, l) = >>=-eq-some (key_parts key) _ v in
    let (stamp, c, d) =
      >>=-eq-some (if str_eq p fmt then stamp_of g from until p id else none) _ l in
    let q : p ≡ fmt = (str_eq_iff p fmt).0 (ground (arith, c)) in
    subst-some (IsGot g p) d (IsGot-fetch g p id stamp key (rw q (key_of_parts key fmt id n k)) s)

visit_all-IsGot :
    (g : Gdbm) (from until : Option DateStruct) (p : CString) (keys : List (List ℕ))
    → All Named keys
    → All (λ key. is_some (g.fetch key) ≡ true) keys
    → All (IsGot g p) (visit_all g from until p keys)
unfolding visit_all
visit_all-IsGot g from until p [] n s = tt
visit_all-IsGot g from until p (key ∷ keys) n s =
    let rest = visit_all-IsGot g from until p keys n.1 s.1 in
    elim (Option-cases (visit g from until p key)) [
      | inl k ↦ rw (k, visit_all) rest
      | inr (e, k) ↦ rw (k, visit_all) (visit-IsGot g from until p key e n.0 s.0 k, rest)
    ]

-- In such a file, for each entry of a list in a format, GetRecord prints the record that ListRecords
-- prints for it.
pub list_entries-get :
    (g : Gdbm) (args : ListArguments) (p : CString) (es : List Entry)
    → IsUnchanged g
    → All Named g.keys
    → args.metadata_prefix ≡ some p
    → list_entries g args ≡ some (some es)
    → All (IsGot g p) es
unfolding list_entries visit_prefix
list_entries-get g args p es w n m e = elim (Option-cases (parse_bound args.from)) [
  | inl f ↦ absurd (let k = rw f at e in ground arith)
  | inr (from, f) ↦ elim (Option-cases (parse_bound args.until)) [
    | inl u ↦ absurd (let k = rw (f, u) at e in ground arith)
    | inr (until, u) ↦
        rw (list_entries-visit_all g args p from until es m f u e)
          (visit_all-IsGot g from until p g.keys n w.present)
  ]
]
