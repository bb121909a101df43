-- ===== src/Tests/Copies.antt =====
-- src/transform_c/parser.c: the content of a record.
use srepod.Prelude.{pos, none, true, false, [], ◌∷◌, codes, CString}
use srepod.Transform.Copy.{Nodes, end_nodes, node_then, element, text, comment}
use srepod.Transform.Handlers.{Setting}
use srepod.Transform.Parser.{Parser, process_metadata}

abbrev setting : Setting
setting = record {
  behind = λ n. [];
  gdbm_fetch = λ db key. none;
  gwbaseurl = codes "http://g";
  frm = codes "http://h/r.xml";
}

-- The text of the record as far as its metadata.
abbrev parser : Parser
parser = record {
  pass = process_metadata;
  in_process = false;
  insidemetadata = true;
  carryon = true;
  baseu = false;
  level = 4;
  nid = 1;
  nfm = 1;
  fmt = codes "oai_dc\t";
  temporary = [];
  temporary2 = codes "<record><metadata>";
  dtf = codes "2002-01-01";
  dtl = codes "2002-01-01";
  tags = codes "metadata" ∷ codes "record" ∷ [];
  ids = codes "oai:a" ∷ [];
  prefixes = codes "oai_dc" ∷ [];
  temps = codes "oai:a" ∷ [];
  db = [];
  depth = pos 0;
  total_found = 1;
}

-- An element with the name of one that counts outside of metadata.
abbrev content : Nodes
content =
    node_then
      (element (codes "oai:metadata") ((codes "a", codes "1") ∷ [])
        (node_then (text (codes "x & y")) end_nodes))
      (node_then (comment (codes "c")) end_nodes)

abbrev content_text : CString
content_text = codes "<metadata a=\"1\">x &amp; y</metadata><!--c-->"
