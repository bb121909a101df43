-- ===== src/HttpHead/Callback.antt =====
-- src/oai-gdbm/http_head.c: what one call of `parse_header` leaves as it is.
use srepod.HttpHead.{
  HeadStruct, handled, is_minus_one, max_head_size, parse_header, status_line, field_line,
  other_line, unmet_tests, copied, scanned, copy_value, scan_etag, scan_type,
}
use mathlib.Core.Path.{subst}
use srepod.Prelude.{
  ℕ, false, Option, none, some, List, ◌++◌, ◌≡◌, ◌∙◌, refl, arith, Option-cases, Bool-cases, inl,
  inr, ltb, CString, codes, length, starts_with,
}

-- The fields of the three tests that are never met.
pub record IsUnset (hs : HeadStruct) : Type 0 where
  pub no_last_modified : hs.last_modified ≡ none
  pub no_via : hs.via ≡ none
  pub no_content_encoding : hs.content_encoding ≡ none

-- What every line but the first leaves as it is.
record Kept (hs hs' : HeadStruct) : Type 0 where
  status : hs'.status_code ≡ hs.status_code
  unset : IsUnset hs → IsUnset hs'

Kept-refl : (hs : HeadStruct) → Kept hs hs
Kept-refl hs = record { status = refl; unset = λ u. u }

module _ (hs hs' : HeadStruct) (f : CString → HeadStruct)
    (keep : (v : CString) → Kept hs (f v)) where
  copied-Kept :
      (o : Option CString) (s : List ℕ) {b : List ℕ} → copied o f s ≡ handled hs' b → Kept hs hs'
  unfolding copied
  copied-Kept none s e = absurd (ground arith)
  copied-Kept (some v) s e = let q : f v ≡ hs' = cc in subst (Kept hs) q (keep v)

  scanned-Kept :
      (size : ℕ) (o : Option CString) (s : List ℕ) {b : List ℕ}
      → scanned size o hs f s ≡ handled hs' b
      → Kept hs hs'
  unfolding scanned
  scanned-Kept size none s e = absurd (ground arith)
  scanned-Kept size (some v) s e = elim (Bool-cases (ltb (length v) size)) [
    | inl l ↦ let q : f v ≡ hs' = ground (arith, rw l at e) in subst (Kept hs) q (keep v)
    | inr l ↦ absurd (let z = rw l at e in ground arith)
  ]

same_fields :
    {hs hs' : HeadStruct}
    → hs'.status_code ≡ hs.status_code
    → hs'.last_modified ≡ hs.last_modified
    → hs'.via ≡ hs.via
    → hs'.content_encoding ≡ hs.content_encoding
    → Kept hs hs'
same_fields a b c d = record {
  status = a;
  unset = λ u. record {
    no_last_modified = b ∙ u.no_last_modified;
    no_via = c ∙ u.no_via;
    no_content_encoding = d ∙ u.no_content_encoding;
  };
}

module _ (behind s b : List ℕ) (hs hs' : HeadStruct) where
  other_line-Kept : other_line behind s hs ≡ handled hs' b → Kept hs hs'
  unfolding other_line
  other_line-Kept e = elim (Option-cases (unmet_tests (s ++ behind))) [
    | inl n ↦ absurd (ground (arith, n, e))
    | inr (c, n) ↦ let q : hs ≡ hs' = ground (arith, n, e) in subst (Kept hs) q (Kept-refl hs)
  ]

  field_line-Kept : field_line behind s hs ≡ handled hs' b → Kept hs hs'
  unfolding field_line
  field_line-Kept e = elim (Bool-cases (starts_with s (codes "Etag:"))) [
    | inl a ↦
        scanned-Kept hs hs' (λ v. record hs { etag = some v })
          (λ v. same_fields refl refl refl refl) (length s) (scan_etag (s ++ behind)) (s ++ behind)
          (rw a at e)
    | inr a ↦ elim (Bool-cases (starts_with s (codes "Date:"))) [
      | inl c ↦
          copied-Kept hs hs' (λ v. record hs { date = some v })
            (λ v. same_fields refl refl refl refl) (copy_value 6 s) (s ++ behind) (rw (a, c) at e)
      | inr c ↦ elim (Bool-cases (starts_with s (codes "Content-Type:"))) [
        | inl d ↦
            scanned-Kept hs hs' (λ v. record hs { content_type = some v })
              (λ v. same_fields refl refl refl refl) (length s) (scan_type (s ++ behind))
              (s ++ behind) (rw (a, c, d) at e)
        | inr d ↦ elim (Bool-cases (starts_with s (codes "Server:"))) [
          | inl k ↦
              copied-Kept hs hs' (λ v. record hs { server = some v })
                (λ v. same_fields refl refl refl refl) (copy_value 8 s) (s ++ behind)
                (rw (a, c, d, k) at e)
          | inr k ↦ other_line-Kept (rw (a, c, d, k) at e)
        ]
      ]
    ]
  ]

  status_line-IsUnset : IsUnset hs → status_line behind s hs ≡ handled hs' b → IsUnset hs'
  unfolding status_line
  status_line-IsUnset u e = ground arith

  pub parse_header-IsUnset : IsUnset hs → parse_header behind s hs ≡ handled hs' b → IsUnset hs'
  unfolding parse_header
  parse_header-IsUnset u e = elim (Bool-cases (ltb max_head_size (length s))) [
    | inl l ↦ let q : hs ≡ hs' = ground (arith, l, e) in subst IsUnset q u
    | inr l ↦ elim (Bool-cases (is_minus_one hs.status_code)) [
      | inl n ↦ status_line-IsUnset u (rw (l, n) at e)
      | inr n ↦ (field_line-Kept (rw (l, n) at e)).unset u
    ]
  ]

  pub parse_header-status :
      is_minus_one hs.status_code ≡ false
      → parse_header behind s hs ≡ handled hs' b
      → hs'.status_code ≡ hs.status_code
  unfolding parse_header
  parse_header-status n e = elim (Bool-cases (ltb max_head_size (length s))) [
    | inl l ↦ let q : hs ≡ hs' = ground (arith, l, e) in rw (← q)
    | inr l ↦ (field_line-Kept (rw (l, n) at e)).status
  ]
