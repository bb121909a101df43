-- ===== src/Gateway/Keys.antt =====
-- src/gateway.c: `has_valid_keys`, over the query that the CGI library has parsed.
pub mod Query
pub mod Sound
pub mod Complete
use srepod.Prelude.{
  ℕ, suc, ◌+◌, Bool, true, false, Option, none, some, List, [], ◌∷◌, if◌then◌else◌, ltb, ◌==◌,
  CString, codes, str_eq,
}
use srepod.Gateway.Uri.{UriResult, accepted, rejected, past_end, is_uri}
use srepod.Gateway.{Check, pass, refuse, overread, ErrorCode, bad_verb, bad_argument}

-- What the code takes from the CGI library: the number of entries, how many have a name, and the
-- first value under a name.
pub record Cgi : Type 0 where
  pub num_entries : ℕ
  pub getnumentries : CString → ℕ
  pub getentrystr : CString → Option CString

abbrev pub num_of_arguments : ℕ
num_of_arguments = 7

unfoldable pub is_one_of : CString → List CString → Bool
is_one_of s [] = false
is_one_of s (v ∷ vs) = if str_eq s v then true else is_one_of s vs

abbrev pub valid_verbs : List CString
valid_verbs =
    codes "Identify"
    ∷ codes "ListMetadataFormats"
    ∷ codes "ListSets"
    ∷ codes "ListIdentifiers"
    ∷ codes "ListRecords"
    ∷ codes "GetRecord"
    ∷ []

-- The value of a key, which may be missing.
unfoldable pub value_check : Option CString → Check
value_check none = pass
value_check (some v) = elim (is_uri v) [
  | accepted ↦ pass
  | rejected ↦ refuse bad_argument (codes "Illegal characters in argument")
  | past_end ↦ overread
]

-- The loop over `valid_keys` ends with the number of keys that were there, or with a result.
pub data KeyScan : Type 0 where
  counted : ℕ → KeyScan
  stopped : Check → KeyScan

unfoldable pub scan_keys : Cgi → List CString → ℕ → KeyScan
scan_keys cgi [] key_count = counted key_count
scan_keys cgi (k ∷ ks) key_count =
    let n = cgi.getnumentries k in
    let rest = scan_keys cgi ks (if n == 1 then key_count + 1 else key_count) in
    if ltb 1 n
    then stopped (refuse bad_argument (codes "Duplicated argument"))
    else elim (value_check (cgi.getentrystr k)) [
      | pass ↦ rest
      | refuse e m ↦ stopped (refuse e m)
      | overread ↦ stopped overread
    ]

-- The verb: there is one, and it is one of the six.
unfoldable pub verb_check : Cgi → Check
verb_check cgi =
    let n = cgi.getnumentries (codes "verb") in
    if n == 0
    then refuse bad_verb (codes "Need a verb")
    else if ltb 1 n
    then refuse bad_verb (codes "Duplicated verbs")
    else elim (cgi.getentrystr (codes "verb")) [
      | none ↦ overread
      | some val ↦
          if is_one_of val valid_verbs then pass else refuse bad_verb (codes "Illegal verb")
    ]

unfoldable pub arguments_check : Cgi → List CString → Check
arguments_check cgi valid_keys =
    if ltb num_of_arguments cgi.num_entries
    then refuse bad_argument (codes "Illegal arguments")
    else elim (scan_keys cgi valid_keys 0) [
      | stopped r ↦ r
      | counted n ↦
          if cgi.num_entries == n then pass else refuse bad_argument (codes "Illegal arguments")
    ]

unfoldable pub has_valid_keys : Cgi → List CString → Check
has_valid_keys cgi valid_keys =
    if cgi.num_entries == 0 then refuse bad_verb (codes "Need a verb") else elim (verb_check cgi) [
      | pass ↦ arguments_check cgi valid_keys
      | refuse e m ↦ refuse e m
      | overread ↦ overread
    ]
