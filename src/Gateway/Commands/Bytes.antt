-- ===== src/Gateway/Commands/Bytes.antt =====
-- src/gateway.c: the number that a `cmd_` function returns is the number of bytes that it prints.
use srepod.Prelude.{
  ◌⊎◌, ℕ, true, Option, none, some, List, ◌++◌, ◌==◌, CString, codes, length, length-append, ◌≡◌,
  ◌≢◌, refl, arith, inl, inr, Bool-cases,
}
use srepod.Gateway.Keys.{has_valid_keys}
use srepod.Gateway.Repository.{Repository, ListType, ListArguments}
use srepod.Gateway.Commands.{
  Reply, printed, failed, crashed, Request, checked, cmd_header, cmd_footer, answer, cmd_identify,
  cmd_listmetadataformats, cmd_list, list_by_token, list_by_arguments, list_answer, cmd_getrecord,
  getrecord_keys, return_zero, record_check, getrecord_reply, list_reply, token_check, format_check,
  dates_check, set_check, list_keys, list_token_keys, list_arguments, token_arguments,
}
use srepod.Gateway.{Check, pass, refuse, overread}

-- What is printed has the length that is returned.
abbrev pub IsCounted : Reply → Type 0
IsCounted (printed n s) = n ≡ length s
IsCounted _ = Unit

IsCounted-of : (r : Reply) → ((n : ℕ) (s : CString) → r ≡ printed n s → n ≡ length s) → IsCounted r
IsCounted-of (printed n s) h = h n s refl
IsCounted-of (failed e m) h = tt
IsCounted-of crashed h = tt

-- A command prints only behind tests that pass.
pub checked_inv :
    (c : Check) (r : Reply) {n : ℕ} {s : CString}
    → checked c r ≡ printed n s
    → (c ≡ pass) × (r ≡ printed n s)
unfolding checked
checked_inv pass r h = (refl, h)
checked_inv (refuse e m) r h = cc
checked_inv overread r h = cc

pub answer_inv :
    (r : Request) (ks : List CString) (body : CString) {n : ℕ} {s : CString}
    → answer r ks body ≡ printed n s
    → (n ≡ length s) × (s ≡ cmd_header r ks ++ (body ++ cmd_footer))
unfolding answer
answer_inv r ks body h =
    ground
      (arith, length-append (cmd_header r ks) (body ++ cmd_footer), length-append body cmd_footer)

pub list_answer_inv :
    (t : ListType) (r : Request) (ks : List CString) (a : ListArguments) {n : ℕ} {s : CString}
    → list_answer t r ks a ≡ printed n s
    → (r.repository.list_count a ≢ 0)
      × (n ≡ length s)
      × (s ≡ cmd_header r ks ++ (r.repository.list t a ++ cmd_footer))
unfolding list_answer
list_answer_inv t r ks a h = elim (Bool-cases (r.repository.list_count a == 0)) [
  | inl e ↦ absurd (ground arith)
  | inr e ↦ let k = answer_inv r ks (r.repository.list t a) (rw e at h) in (ground arith, k.0, k.1)
]

list-counted :
    (t : ListType) (r : Request) (token : Option CString) (n : ℕ) (s : CString)
    → list_reply t r token ≡ printed n s
    → n ≡ length s
unfolding list_reply list_by_token list_by_arguments
list-counted t r none n s e =
    let (_, e₁) = checked_inv _ _ e in
    let (_, e₂) = checked_inv _ _ e₁ in
    let (_, e₃) = checked_inv _ _ e₂ in
    let (_, e₄) = checked_inv _ _ e₃ in (list_answer_inv _ _ _ _ e₄).1
list-counted t r (some token) n s e =
    let (_, e₁) = checked_inv _ _ e in
    let (_, e₂) = checked_inv _ _ e₁ in (list_answer_inv _ _ _ _ e₂).1

-- `Identify`, `ListMetadataFormats` and the two lists return the number of the bytes that they
-- print, whatever the query and the repository.
pub cmd-IsCounted :
    (r : Request) (t : ListType)
    → IsCounted (cmd_identify r) × IsCounted (cmd_listmetadataformats r) × IsCounted (cmd_list t r)
unfolding cmd_identify cmd_listmetadataformats cmd_list
cmd-IsCounted r t = (
  IsCounted-of (cmd_identify r) (λ n s e. (answer_inv _ _ _ (checked_inv _ _ e).1).0),
  IsCounted-of (cmd_listmetadataformats r)
      (λ n s e. (answer_inv _ _ _ (checked_inv _ _ (checked_inv _ _ e).1).1).0),
  IsCounted-of (cmd_list t r) (list-counted t r (r.cgi.getentrystr (codes "resumptionToken"))),
)

zero_inv :
    (r : Request) (ks : List CString) (body : CString) {n : ℕ} {s : CString}
    → return_zero (answer r ks body) ≡ printed n s
    → (n ≡ 0) × (s ≡ cmd_header r ks ++ (body ++ cmd_footer))
unfolding return_zero answer
zero_inv r ks body h = ground arith

record_check_inv :
    (repo : Repository) (identifier prefix : CString)
    → record_check repo identifier prefix ≡ pass
    → (repo.valid_format prefix ≡ true) × (repo.identifier_exists identifier (some prefix) ≡ true)
unfolding record_check
record_check_inv repo identifier prefix e = (ground arith, ground arith)

-- What a printed record is.
pub record IsRecord (r : Request) (n : ℕ) (s : CString) (i p : Option CString) : Type 0 where
  pub identifier : CString
  pub prefix : CString
  pub given : (i ≡ some identifier) × (p ≡ some prefix)
  pub offered :
      (r.repository.valid_format prefix ≡ true)
      × (r.repository.identifier_exists identifier (some prefix) ≡ true)
  pub shown : s ≡ cmd_header r getrecord_keys ++ (r.repository.get identifier prefix ++ cmd_footer)
  pub returned : n ≡ 0

getrecord_reply_inv :
    (r : Request) (i p : Option CString) (n : ℕ) (s : CString)
    → getrecord_reply r i p ≡ printed n s
    → IsRecord r n s i p
unfolding getrecord_reply
getrecord_reply_inv r none p n s e = absurd (cc)
getrecord_reply_inv r (some i) none n s e = absurd (cc)
getrecord_reply_inv r (some i) (some p) n s e =
    let (c, e₁) = checked_inv _ _ e in
    let (z, t) = zero_inv r getrecord_keys (r.repository.get i p) e₁ in
    record {
      identifier = i;
      prefix = p;
      given = (refl, refl);
      offered = record_check_inv r.repository i p c;
      shown = t;
      returned = z;
    }

-- `GetRecord` prints only for an identifier and a format that are in the query, and that the
-- repository has together. It prints the record between header and footer, and returns 0.
pub cmd_getrecord-IsRecord :
    (r : Request) (n : ℕ) (s : CString)
    → cmd_getrecord r ≡ printed n s
    → IsRecord r n s
        (r.cgi.getentrystr (codes "identifier"))
        (r.cgi.getentrystr (codes "metadataPrefix"))
unfolding cmd_getrecord
cmd_getrecord-IsRecord r n s e = getrecord_reply_inv r _ _ n s (checked_inv _ _ e).1

-- What a printed list is.
pub record IsList (t : ListType) (r : Request) (s : CString) (token : Option CString) : Type 0 where
  pub arguments : ListArguments
  pub keys : List CString
  pub matches : r.repository.list_count arguments ≢ 0
  pub keys_valid : has_valid_keys r.cgi keys ≡ pass
  pub tested :
      (token ≡ none)
        × (arguments ≡ list_arguments r.cgi)
        × (keys ≡ list_keys)
        × (format_check r.repository arguments.metadata_prefix ≡ pass)
        × (dates_check r.repository arguments.from arguments.until ≡ pass)
        × (set_check r.repository arguments.set ≡ pass)
      ⊎ (given : CString) × (token ≡ some given)
        × (arguments ≡ token_arguments given)
        × (keys ≡ list_token_keys)
        × (r.repository.valid_token given ≡ true)
  pub shown : s ≡ cmd_header r keys ++ (r.repository.list t arguments ++ cmd_footer)

list_reply_inv :
    (t : ListType) (r : Request) (token : Option CString) (n : ℕ) (s : CString)
    → list_reply t r token ≡ printed n s
    → IsList t r s token
unfolding list_reply list_by_token list_by_arguments
list_reply_inv t r none n s e =
    let (k, e₁) = checked_inv _ _ e in
    let (f, e₂) = checked_inv _ _ e₁ in
    let (d, e₃) = checked_inv _ _ e₂ in
    let (c, e₄) = checked_inv _ _ e₃ in
    let (m, _, p) = list_answer_inv t r list_keys (list_arguments r.cgi) e₄ in
    record {
      arguments = list_arguments r.cgi;
      keys = list_keys;
      matches = m;
      keys_valid = k;
      tested = inl (refl, refl, refl, f, d, c);
      shown = p;
    }
list_reply_inv t r (some token) n s e =
    let (k, e₁) = checked_inv _ _ e in
    let (v, e₂) = checked_inv _ _ e₁ in
    let (m, _, p) = list_answer_inv t r list_token_keys (token_arguments token) e₂ in
    record {
      arguments = token_arguments token;
      keys = list_token_keys;
      matches = m;
      keys_valid = k;
      tested = inr (token, refl, refl, refl, unfold token_check in ground arith);
      shown = p;
    }

-- A list is printed only for a query whose keys are valid and whose arguments match something: the
-- token, if there is one, which is then valid, and otherwise the other arguments of the query, with
-- a valid format, valid dates, and a set only if there are sets. The whole list of these arguments is
-- printed, between header and footer.
pub cmd_list-IsList :
    (t : ListType) (r : Request) (n : ℕ) (s : CString)
    → cmd_list t r ≡ printed n s
    → IsList t r s (r.cgi.getentrystr (codes "resumptionToken"))
unfolding cmd_list
cmd_list-IsList t r n s e = list_reply_inv t r _ n s e
