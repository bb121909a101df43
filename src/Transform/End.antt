-- ===== src/Transform/End.antt =====
-- src/transform_c/parser.c: the handler `end`. `none` is an access out of bounds, or through a null
-- pointer.
use srepod.Prelude.{
  ◌-◌, ◌==◌, ◌&&◌, ◌||◌, false, not, Option, some, [], ◌∷◌, ◌++◌, if◌then◌else◌, ◌>>=◌, CString,
  codes, str_eq, contains,
}
use srepod.Transform.Parser.{
  Parser, process_none, process_metadataformat, process_identify, escape2, end_tag, down,
}
use srepod.Transform.Stacks.{Stack, Database, Fetch, top, pop, dataget, dataput, datadestroy}
use srepod.Transform.Start.{meets, append_temporary, append_temporary2}

-- What has been found for each identifier is moved to the key with `fmt:`.
unfoldable pub move_formats : Fetch → Database → Stack → Option Database
move_formats gdbm_fetch db [] = some db
move_formats gdbm_fetch db (t ∷ temps) = do
  val ← dataget gdbm_fetch db t
  move_formats gdbm_fetch (datadestroy (dataput db (codes "fmt:" ++ t) val) t) temps

-- `end` for the formats and the description of the repository, as far as the copies of what is open.
unfoldable pub end_temporary : Parser → CString → Option Parser
end_temporary st el = do
  st₁ ← if st.pass == process_metadataformat then append_temporary st (end_tag el) else some st
  st₂ ←
      if meets (str_eq el (codes "metadataFormat")) st₁
      then top st₁.prefixes >>= (λ p.
        some (record st₁ {
          pass = process_none;
          db = dataput st₁.db (codes "fmt:" ++ p) st₁.temporary;
        }))
      else some st₁
  if st₂.pass == process_identify && not (contains el (codes "Identify"))
      then append_temporary st₂ (end_tag el)
      else some st₂

abbrev pub xml_key : CString → CString → CString
xml_key prefix id = codes "xml:" ++ (prefix ++ (codes ":" ++ id))

-- `end` for a record. The new array in `temporary2` is written over before it is read.
unfoldable pub end_record : Parser → CString → Option Parser
end_record st el = do
  st₁ ← if st.carryon then append_temporary2 st (end_tag el) else some st
  if not (meets (str_eq el (codes "record")) st₁) then some st₁ else do
    prefix ← top st₁.prefixes
    id ← top st₁.ids
    some (record st₁ {
      carryon = false;
      temporary2 = [];
      db = dataput st₁.db (xml_key prefix id) st₁.temporary2;
    })

unfoldable pub end_identify : Parser → CString → Parser
end_identify st el =
    if meets (contains el (codes "Identify")) st
    then record st { pass = process_none; db = dataput st.db (codes "idf") st.temporary }
    else st

unfoldable pub end_metadata : Parser → CString → Parser
end_metadata st el =
    if st.insidemetadata && st.level == 4 && str_eq el (codes "metadata")
    then record st { insidemetadata = false }
    else st

unfoldable pub end_prefixes : Parser → CString → Parser
end_prefixes st el =
    if meets (contains el (codes "ListMetadataFormats")) st
    then record st { prefixes = [] }
    else if meets (contains el (codes "Listrecords")) st
    then record st { prefixes = pop st.prefixes }
    else st

unfoldable pub end_tags : Parser → Option Parser
end_tags st = do
  tag ← top st.tags
  some (record st {
    in_process = meets (str_eq tag (codes "Repository")) st || st.in_process;
    tags = pop st.tags;
  })

-- The end of `end`: what closes with an element. The stack of prefixes that is new is empty, so that
-- nothing more can be taken from it.
unfoldable pub end_scopes : Parser → CString → Option Parser
end_scopes st el = end_tags (end_prefixes (end_metadata (end_identify st el) el) el)

unfoldable pub end_element : Parser → CString → Option Parser
end_element st el =
    if st.in_process
    then some st
    else do st₁ ← end_temporary (record st { depth = down st.depth }) el; st₂ ← end_record st₁ el; end_scopes st₂ el

-- `end`. Each element that ends has begun, so that `level` is not 0.
unfoldable pub end : Fetch → Parser → CString → Option Parser
end gdbm_fetch st str =
    let el = escape2 str in
    (if meets (contains el (codes "Repository")) st
      then move_formats gdbm_fetch st.db st.temps
        >>= (λ db. some (record st { db = db; temps = [] }))
      else end_element st el)
    >>= (λ st'. some (record st' { level = st'.level - 1 }))
