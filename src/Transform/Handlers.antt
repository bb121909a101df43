-- ===== src/Transform/Handlers.antt =====
-- src/transform_c/parser.c: the handlers of text, comments and instructions, and all calls of handlers in
-- their order. `none` is an access out of bounds, or through a null pointer.
use srepod.Prelude.{
  ℕ, ◌+◌, ◌==◌, ◌&&◌, ◌||◌, false, not, Option, none, some, List, [], ◌∷◌, ◌++◌, if◌then◌else◌,
  ◌>>=◌, CString, codes, length, drop, ltb,
}
use srepod.Transform.{escape}
use srepod.Transform.Parser.{
  Parser, Attributes, process_none, process_datestamp, process_identifier, process_metadataformat,
  process_identify, process_metadataprefix, strcat, numera,
}
use srepod.Transform.Stacks.{Fetch, push, top, dataget, dataput}
use srepod.Transform.Start.{append_temporary, append_temporary2, start}
use srepod.Transform.End.{end}

abbrev pub dat_key : CString → CString → CString
dat_key prefix id = codes "dat:" ++ (prefix ++ (codes ":" ++ id))

-- The memory behind the array of `numera`, what gdbm has for a key, GWBASEURL, and the url of the
-- repository, `frm`, which begins with http://.
pub record Setting : Type 0 where
  pub behind : ℕ → List ℕ
  pub gdbm_fetch : Fetch
  pub gwbaseurl : CString
  pub frm : CString

-- A date that is later than the last or earlier than the first takes its place; the arrays have 11 bytes.
unfoldable pub widen_dates : Setting → Parser → CString → Option Parser
widen_dates g st linea = do
  last ← numera g.behind st.dtl
  n ← numera g.behind linea
  first ← numera g.behind st.dtf
  if (ltb last n || ltb n first) && not (ltb (length linea) 11)
      then none
      else some (record st {
        dtl = if ltb last n then linea else st.dtl;
        dtf = if ltb n first then linea else st.dtf;
      })

unfoldable pub take_datestamp : Setting → Parser → CString → Option Parser
take_datestamp g st linea = do
  st₁ ← widen_dates g st linea
  id ← top st₁.ids
  prefix ← top st₁.prefixes
  some (record st₁ { pass = process_none; db = dataput st₁.db (dat_key prefix id) linea })

unfoldable pub take_identifier : Setting → Parser → CString → Option Parser
take_identifier g st linea = do
  prefix ← top st.prefixes
  let st₁ : Parser = record st { pass = process_none; ids = push linea st.ids }
  some (elim (dataget g.gdbm_fetch st.db linea) [
    | some v₁ ↦ record st₁ { db = dataput st.db linea (v₁ ++ (b'\t' ∷ prefix)) }
    | none ↦ record st₁ {
      nid = st.nid + 1;
      temps = push linea st.temps;
      db = dataput st.db linea prefix;
    }
  ])

-- `fmt` has 1024 bytes.
unfoldable pub take_prefix : Parser → CString → CString → Option Parser
take_prefix st s linea = do
  fmt ← strcat 1024 st.fmt (linea ++ codes "\t")
  append_temporary
      (record st { pass = process_metadataformat; prefixes = push linea st.prefixes; fmt = fmt }) s

-- The base url is that of the gateway, and the path of the repository. The text has one byte more than
-- the array, which is not used otherwise in a build that works.
unfoldable pub identify_text : Setting → Parser → CString → Option CString
identify_text g st s =
    if st.baseu then some (g.gwbaseurl ++ (codes "/" ++ drop 7 g.frm)) else escape s (length s)

-- `charhnld` as far as the text of a record; `s` has `len` characters.
unfoldable pub take_text : Setting → Parser → CString → Option Parser
take_text g st s =
    if st.pass == process_datestamp
    then take_datestamp g st s
    else if st.pass == process_identifier
    then (escape s (length s) >>= (λ linea. take_identifier g st linea))
    else if st.pass == process_metadataformat
    then (escape s (length s) >>= (λ linea. append_temporary st linea))
    else if st.pass == process_metadataprefix
    then (escape s (length s) >>= (λ linea. take_prefix st s linea))
    else if st.pass == process_identify
    then (identify_text g st s >>= (λ linea. append_temporary (record st { baseu = false }) linea))
    else some st

unfoldable pub charhnld : Setting → Parser → CString → Option Parser
charhnld g st s = if st.in_process then some st else do
  st₁ ← take_text g st s
  if st₁.carryon then escape s (length s) >>= (λ linea. append_temporary2 st₁ linea) else some st₁

unfoldable pub comment_data : Parser → CString → Option Parser
comment_data st s =
    if st.carryon
    then (escape s (length s) >>= (λ t. append_temporary2 st (codes "<!--" ++ (t ++ codes "-->"))))
    else some st

unfoldable pub processing_data : Parser → CString → CString → Option Parser
processing_data st target text =
    if st.carryon
    then append_temporary2 st (codes "<?" ++ (target ++ (codes " " ++ (text ++ codes "?>"))))
    else some st

-- What the library for XML reports, call by call.
pub data Event : Type 0 where
  start_event : CString → Attributes → Event
  end_event : CString → Event
  text_event : CString → Event
  comment_event : CString → Event
  processing_event : CString → CString → Event

unfoldable pub handle : Setting → Parser → Event → Option Parser
handle g st (start_event el attr) = start st el attr
handle g st (end_event el) = end g.gdbm_fetch st el
handle g st (text_event s) = charhnld g st s
handle g st (comment_event s) = comment_data st s
handle g st (processing_event target text) = processing_data st target text

unfoldable pub handle_all : Setting → Parser → List Event → Option Parser
handle_all g st [] = some st
handle_all g st (e ∷ events) = do st' ← handle g st e; handle_all g st' events
