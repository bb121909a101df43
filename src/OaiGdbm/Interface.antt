-- ===== src/OaiGdbm/Interface.antt =====
-- src/oai-gdbm/oai-gdbm.c: the functions of the interface over an open file, as the gateway has them.
use srepod.Gateway.{pass}
use srepod.Gateway.Commands.{
  Request, printed, cmd_list, cmd_header, cmd_footer, list_keys, list_arguments, set_check,
}
use srepod.Gateway.Commands.Bytes.{IsList, cmd_list-IsList}
use srepod.Gateway.Repository.{Repository, ListArguments, ListType}
use srepod.OaiGdbm.{
  Machine, Gdbm, oai_granularity, oai_identifier_exists, oai_num_metadataformats, oai_valid_format,
  oai_get,
}
use srepod.OaiGdbm.Describe.{Descriptions, oai_identify, oai_listmetadataformats}
use srepod.OaiGdbm.Listing.{Entry, list_entries, oai_list_count, oai_list, listing_text}
use srepod.Prelude.{
  ℕ, true, false, Option, none, some, List, [], ◌++◌, ◌≡◌, ◌≢◌, refl, arith, inl, inr, Option-cases,
  CString, codes, length, ap, sym, ◌∙◌,
}

-- `getenv("GWBASEURL")`
unfoldable pub oai_progname : Option CString → CString
oai_progname none = []
oai_progname (some url) = url

abbrev or_zero : Option ℕ → ℕ
or_zero none = 0
or_zero (some n) = n

abbrev or_nothing : Option (List ℕ) → List ℕ
or_nothing none = []
or_nothing (some s) = s

-- There are no sets and no tokens. A call that reads out of bounds has no value in the interface, and
-- prints nothing here.
unfoldable pub repository_of : Machine → Gdbm → CString → Descriptions → Repository
unfolding oai_progname
repository_of m g scrap e = record {
  progname = oai_progname e.gwbaseurl;
  granularity = oai_granularity m g;
  num_of_sets = 0;
  identifier_exists = oai_identifier_exists g;
  num_metadataformats = λ identifier. oai_num_metadataformats m g;
  valid_token = λ token. false;
  valid_format = oai_valid_format g;
  identify = or_nothing (oai_identify m g scrap e);
  listmetadataformats = oai_listmetadataformats g;
  listsets = λ token. [];
  list_count = λ args. or_zero (oai_list_count g args);
  list = λ type args. or_nothing (oai_list g type args);
  get = oai_get g;
}

-- What the gateway prints for a list over a file.
pub record IsListing (g : Gdbm) (t : ListType) (r : Request) (s : CString) : Type 0 where
  pub no_token : r.cgi.getentrystr (codes "resumptionToken") ≡ none
  pub no_set : r.cgi.getentrystr (codes "set") ≡ none
  pub entries : List Entry
  pub found : list_entries g (list_arguments r.cgi) ≡ some (some entries)
  pub some_entry : entries ≢ []
  pub shown : s ≡ cmd_header r list_keys ++ (listing_text g t entries ++ cmd_footer)

module _ (m : Machine) (g : Gdbm) (scrap : CString) (e : Descriptions) (t : ListType) (r : Request)
    (same : r.repository ≡ repository_of m g scrap e) where
  -- What is counted, and what is printed, for arguments that match something.
  found_entries :
      (args : ListArguments)
      → r.repository.list_count args ≢ 0
      → (es : List Entry) × (list_entries g args ≡ some (some es))
        × (es ≢ [])
        × (r.repository.list t args ≡ listing_text g t es)
  unfolding repository_of oai_list_count oai_list
  found_entries args n =
      let c : r.repository.list_count args ≡ or_zero (oai_list_count g args) =
        ap (λ (x : Repository). x.list_count args) same in
      let l : r.repository.list t args ≡ or_nothing (oai_list g t args) =
        ap (λ (x : Repository). x.list t args) same in
      elim (Option-cases (list_entries g args)) [
        | inl q ↦
            let z : or_zero (oai_list_count g args) ≡ 0 = ground (arith, q) in absurd (n (c ∙ z))
        | inr (none, q) ↦
            let z : or_zero (oai_list_count g args) ≡ 0 = ground (arith, q) in absurd (n (c ∙ z))
        | inr (some es, q) ↦
            let z : or_zero (oai_list_count g args) ≡ length es = ground (arith, q) in
            let k : or_nothing (oai_list g t args) ≡ listing_text g t es = ground (arith, q) in
            (es, q, (λ nil. n (c ∙ z ∙ ap (λ (l : List Entry). length l) nil)), l ∙ k)
      ]

  no_set_of : (o : Option CString) → set_check r.repository o ≡ pass → o ≡ none
  unfolding repository_of set_check
  no_set_of none k = refl
  no_set_of (some set) k =
      let z : r.repository.num_of_sets ≡ 0 = ap (λ (x : Repository). x.num_of_sets) same in
      absurd (let y = rw z at k in cc)

  -- Over a gdbm file the gateway prints a list only for a query with neither a token nor a set, and
  -- only with an entry at least: it is the list of the entries that oai_list meets for the arguments
  -- of the query, between header and footer.
  pub cmd_list-IsListing : (n : ℕ) (s : CString) → cmd_list t r ≡ printed n s → IsListing g t r s
  unfolding repository_of set_check
  cmd_list-IsListing n s k = from_list (cmd_list-IsList t r n s k)
    where
      from_list : IsList t r s (r.cgi.getentrystr (codes "resumptionToken")) → IsListing g t r s
      from_list i = elim i.tested [
        | inl (a, b, c, d, f, v) ↦
            let (es, q, p, l) = found_entries i.arguments i.matches in
            record {
              no_token = a;
              no_set = no_set_of (r.cgi.getentrystr (codes "set")) (rw b at v);
              entries = es;
              found = rw b at q;
              some_entry = p;
              shown = i.shown ∙ rw (c, l);
            }
        | inr (token, a, b, c, v) ↦
            let z : r.repository.valid_token token ≡ false =
              ap (λ (x : Repository). x.valid_token token) same in
            absurd (let y : true ≡ false = sym v ∙ z in cc)
      ]
