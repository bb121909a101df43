-- ===== src/Transform/Start.antt =====
-- src/transform_c/parser.c: the handler `start`. `none` is an access out of bounds.
use srepod.Prelude.{
  ℕ, ◌+◌, ◌==◌, ◌&&◌, ◌||◌, Bool, true, false, not, Option, none, some, [], ◌∷◌, if◌then◌else◌,
  ◌>>=◌, CString, codes, length, ltb, str_eq, contains,
}
use srepod.Transform.Parser.{
  Parser, Attributes, process_datestamp, process_identifier, process_metadataformat,
  process_identify, process_metadata, process_metadataprefix, buffsize, tmpsize, escape2, strcat,
  start_tag, up,
}
use srepod.Transform.Stacks.{Stack, push}

-- A test of the name of an element, which counts outside of metadata only.
abbrev pub meets : Bool → Parser → Bool
meets b st = not st.insidemetadata && b

unfoldable pub append_temporary : Parser → CString → Option Parser
append_temporary st s = do t ← strcat buffsize st.temporary s; some (record st { temporary = t })

unfoldable pub append_temporary2 : Parser → CString → Option Parser
append_temporary2 st s = do t ← strcat tmpsize st.temporary2 s; some (record st { temporary2 = t })

unfoldable pub push_values : Attributes → Stack → Stack
push_values [] s = s
push_values ((name, value) ∷ attr) s = push_values attr (push value s)

-- The names with `Repository` are counted.
abbrev pub count_found : Parser → CString → Parser
count_found st el =
    record st { total_found = if contains el (codes "Repository") then st.total_found + 1 else st.total_found }

-- `start` as far as the copies of what is open.
unfoldable pub start_known : Parser → CString → Attributes → Option Parser
start_known st el attr = do
  let st₁ : Parser =
      if meets (contains el (codes "ListRecords")) st
      then record st { prefixes = push_values attr st.prefixes }
      else st
  let st₂ : Parser =
      if meets (str_eq el (codes "datestamp")) st₁
      then record st₁ { pass = process_datestamp }
      else st₁
  let st₃ : Parser =
      if meets (str_eq el (codes "identifier")) st₂
      then record st₂ { pass = process_identifier }
      else st₂
  st₄ ←
      if st₃.pass == process_metadataformat
      then start_tag el attr >>= (λ t. append_temporary st₃ t)
      else some st₃
  if st₄.pass == process_identify
      then start_tag el attr
        >>= (λ t. append_temporary st₄ t)
        >>= (λ st₅. some (record st₅ { baseu = str_eq el (codes "baseURL") || st₅.baseu }))
      else some st₄

-- A copy that begins: the tag is written over `temporary`.
unfoldable pub begin_temporary : Parser → ℕ → CString → Attributes → Option Parser
begin_temporary st p el attr = do
  t ← start_tag el attr
  if ltb (length t) buffsize then some (record st { pass = p; temporary = t }) else none

-- `start` from the test for `metadata` up to that for `Identify`.
unfoldable pub start_copies : Parser → CString → Attributes → Option Parser
start_copies st el attr = do
  let st₁ : Parser =
      if meets (str_eq el (codes "metadata")) st
      then record st { pass = process_metadata; insidemetadata = true }
      else st
  st₂ ←
      if meets (str_eq el (codes "metadataFormat")) st₁
      then begin_temporary st₁ process_metadataformat el attr
      else some st₁
  let st₃ : Parser =
      if meets (str_eq el (codes "metadataPrefix")) st₂
      then record st₂ { pass = process_metadataprefix; nfm = st₂.nfm + 1 }
      else st₂
  if meets (contains el (codes "Identify")) st₃
      then begin_temporary st₃ process_identify (codes "Identify") attr
      else some st₃

-- The end of `start`: what goes into the text of a record.
unfoldable pub start_record : Parser → CString → Attributes → Option Parser
start_record st el attr = do
  st₁ ← if st.carryon then start_tag el attr >>= (λ t. append_temporary2 st t) else some st
  if meets (str_eq el (codes "record")) st₁
      then start_tag el attr >>= (λ t.
        if ltb (length t) tmpsize
        then some (record st₁ { carryon = true; temporary2 = t })
        else none)
      else some st₁

abbrev pub open_tag : Parser → CString → Parser
open_tag st el = record st { tags = push el st.tags; in_process = false }

-- `start`, for the name of an element without its prefix.
unfoldable pub start_element : Parser → CString → Attributes → Option Parser
start_element st el attr =
    if st.in_process && not (contains el (codes "Repository")) then some (record st { depth = up st.depth }) else do
      st₁ ← start_known (count_found st el) el attr
      st₂ ← start_copies st₁ el attr
      st₃ ← start_record st₂ el attr
      some (open_tag st₃ el)

unfoldable pub start : Parser → CString → Attributes → Option Parser
start st el attr = start_element (record st { level = st.level + 1 }) (escape2 el) attr
