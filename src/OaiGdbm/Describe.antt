-- ===== src/OaiGdbm/Describe.antt =====
-- src/oai-gdbm/oai-gdbm.c: `oai_listmetadataformats` and `oai_identify`.
use srepod.OaiGdbm.{
  Machine, Gdbm, Got, missing, overflow, got, c_string, literal_key, get_url, format_key,
}
use srepod.Prelude.{
  ℕ, ◌==◌, Option, none, some, List, [], ◌∷◌, ◌++◌, if◌then◌else◌, ◌>>=◌, is_nil, CString, codes,
}
use srepod.Template.{loose, args_template, parse_template}

-- The tokens that `strtok` finds between tabs; `held` is the start of the current one.
unfoldable pub tokens_from : CString → CString → List CString
tokens_from held [] = if is_nil held then [] else held ∷ []
tokens_from held (c ∷ s) =
    let rest = tokens_from (if c == b'\t' then [] else held ++ c ∷ []) s in
    if c == b'\t' then (if is_nil held then rest else held ∷ rest) else rest

-- The loop over the tokens, which stops at a format that the file does not describe.
unfoldable pub formats_text : Gdbm → List CString → List ℕ
formats_text g [] = []
formats_text g (fmt ∷ rest) = elim (g.fetch (format_key fmt)) [
  | none ↦ []
  | some value ↦ value ++ formats_text g rest
]

-- The key under which the formats of an identifier, or of the repository, stand.
unfoldable pub formats_key : Option CString → CString
formats_key none = codes "fmt"
formats_key (some identifier) = format_key identifier

-- What is printed; the number that is returned is the length.
unfoldable pub oai_listmetadataformats : Gdbm → Option CString → List ℕ
unfolding formats_key tokens_from formats_text
oai_listmetadataformats g identifier = elim (g.fetch (formats_key identifier)) [
  | none ↦ []
  | some value ↦
      codes "<ListMetadataFormats>"
      ++ (formats_text g (tokens_from [] (c_string value)) ++ codes "</ListMetadataFormats>")
]

-- The variables that `oai_identify` reads. The two files are `none` where their variable is not set,
-- or the file cannot be opened.
pub record Descriptions : Type 0 where
  pub gwbaseurl : Option CString
  pub gwadmin : Option CString
  pub friends : Option CString
  pub desc : Option CString

-- A template with its arguments, of which only as many as `args_template` copies are there.
abbrev with_template : Option CString → List (Option CString) → Option CString
with_template none args = some []
with_template (some file) args = parse_template loose args file

-- The url, which the code does not look at if there is no key for it: `scrap` is what the array then
-- holds.
unfoldable pub url_text : CString → Got → Option CString
url_text scrap missing = some scrap
url_text scrap overflow = none
url_text scrap (got url) = some url

-- What `oai_identify` prints; `none` is an access out of bounds.
unfoldable pub oai_identify : Machine → Gdbm → CString → Descriptions → Option (List ℕ)
unfolding literal_key
oai_identify m g scrap e = elim (g.fetch (literal_key m (codes "idf"))) [
  | none ↦ some []
  | some value ↦ do
    friends ← with_template e.friends (args_template 1 (none ∷ []))
    url ← url_text scrap (get_url m g)
    desc ← with_template e.desc (args_template 3 (some url ∷ e.gwbaseurl ∷ e.gwadmin ∷ none ∷ []))
    some (value ++ (friends ++ (desc ++ codes "</Identify>")))
]
