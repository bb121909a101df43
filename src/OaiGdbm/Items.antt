-- ===== src/OaiGdbm/Items.antt =====
-- src/oai-gdbm/oai-gdbm.c: what `oai_list` shows, and what the functions that look up one key say of it.
use srepod.OaiGdbm.{Gdbm, record_key}
use srepod.OaiGdbm.Keys.{
  IsFormat, IsIdentifier, Named, other, named, occurrences, key_parts-record_key,
}
use srepod.OaiGdbm.Listing.{Entry, key_parts, stamp_of, visit, visit_all}
use srepod.Prelude.{
  ℕ, ◌+◌, false, ◌&&◌, Option, none, some, List, [], ◌∷◌, ◌≡◌, refl, arith, ◌>>=◌, Bool-cases, inl,
  inr, if◌then◌else◌, is_some, All, CString, codes, starts_with, str_eq, str_eq_iff, str_eq_refl,
  ap, ◌∙◌, sym,
}
use srepod.Time.{DateStruct}

-- How many entries carry an identifier.
pub count_id : CString → List Entry → ℕ
count_id id [] = 0
count_id id (e ∷ es) = (if str_eq id e.id then 1 else 0) + count_id id es

abbrev entry_count : CString → Option Entry → ℕ
entry_count id none = 0
entry_count id (some e) = if str_eq id e.id then 1 else 0

record_key-inj :
    (f i p id : CString)
    → IsFormat f
    → IsIdentifier i
    → IsFormat p
    → IsIdentifier id
    → record_key p id ≡ record_key f i
    → (p ≡ f) × (id ≡ i)
record_key-inj f i p id a b c d e =
    let k : ◌≡◌ {A = Option (CString × CString)} (some (p, id)) (some (f, i)) =
      sym (key_parts-record_key p id c d) ∙ ap key_parts e ∙ key_parts-record_key f i a b in
    (ground arith, ground arith)

-- Two keys of records are the same exactly if the formats and the identifiers are.
str_eq-record_key :
    (f i p id : CString)
    → IsFormat f
    → IsIdentifier i
    → IsFormat p
    → IsIdentifier id
    → str_eq (record_key p id) (record_key f i) ≡ (str_eq p f && str_eq id i)
str_eq-record_key f i p id a b c d = elim (Bool-cases (str_eq (record_key p id) (record_key f i))) [
  | inl e ↦
      let (q, r) = record_key-inj f i p id a b c d ((str_eq_iff _ _).0 e) in
      rw (q, r, str_eq_refl f, str_eq_refl i) (str_eq_refl (record_key f i))
  | inr e ↦ elim (Bool-cases (str_eq p f && str_eq id i)) [
    | inl k ↦
        let q : p ≡ f = (str_eq_iff p f).0 (ground arith) in
        let r : id ≡ i = (str_eq_iff id i).0 (ground arith) in
        absurd (let z = str_eq_refl (record_key f i) in let y = rw (q, r) at e in cc)
    | inr k ↦ e ∙ sym k
  ]
]

other-record_key :
    (p id : CString) (key : List ℕ)
    → starts_with key (codes "xml:") ≡ false
    → str_eq (record_key p id) key ≡ false
unfolding starts_with
other-record_key p id key e = elim (Bool-cases (str_eq (record_key p id) key)) [
  | inl k ↦
      let q : record_key p id ≡ key = (str_eq_iff _ _).0 k in
      absurd (let z = rw (← q) at e in ground arith)
  | inr k ↦ k
]

module _ (g : Gdbm) (from until : Option DateStruct) (p id : CString) (c : IsFormat p)
    (d : IsIdentifier id) where
  -- One round of the loop counts an identifier where the key is that of the record.
  visit-count :
      (key : List ℕ)
      → Named key
      → entry_count id (visit g from until p key) ≡ (
          if str_eq (record_key p id) key
          then (if is_some (stamp_of g from until p id) then 1 else 0)
          else 0)
  unfolding visit
  visit-count key (other e) = rw (other-record_key p id key e) (
      let n : key_parts key ≡ none = unfold key_parts in ground (arith, e) in
      rw (n, visit, ◌>>=◌) refl)
  visit-count key (named f i e a b) =
      rw (e, str_eq-record_key f i p id a b c d, key_parts-record_key f i a b, visit, ◌>>=◌)
        (ground (arith, str_eq_iff p f, str_eq_iff id i))

  pub visit_all-count :
      (keys : List (List ℕ))
      → All Named keys
      → count_id id (visit_all g from until p keys)
        ≡ (if is_some (stamp_of g from until p id) then occurrences (record_key p id) keys else 0)
  unfolding visit_all count_id occurrences
  visit_all-count [] n = ground arith
  visit_all-count (key ∷ keys) n = ground (arith, visit-count key n.0, visit_all-count keys n.1)
