-- ===== src/Tests/Headers.antt =====
-- src/oai-gdbm/http_head.c and src/cconfig/hash.c: an answer of two lines, and a run of calls.
use srepod.HashTable.{hash, positive_sum, negative_sum, hash_new}
use srepod.HashTable.Refine.{Op, add, del, val, run, map_run, empty, run-map_run}
use srepod.HttpHead.{
  HeadStruct, Line, parse_header, status_line, scan_status, perform, simple_header, init_header,
  field_line, other_line, unmet_tests, overwrite,
}
use srepod.HttpHead.Callback.{IsUnset}
use srepod.HttpHead.Fields.{reply_line, simple_header-IsUnset, simple_header-status}
use srepod.Prelude.{
  Option, none, some, List, [], ◌∷◌, ◌≡◌, refl, arith, CString, codes, replicate, starts_with,
  scan_int, scan_run, skip_space, is_space, digits_value, pos,
}

abbrev lines : List Line
lines =
    record { text = reply_line 304 (codes "Not Modified\r\n"); behind = replicate 20 0 }
    ∷ record { text = codes "Last-Modified: Mon\r\n"; behind = replicate 20 0 }
    ∷ record { text = codes "\r\n"; behind = replicate 20 0 }
    ∷ []

abbrev request : CString → CString → Option (List Line)
request url since = some lines

abbrev head_of : Option (Option HeadStruct) → HeadStruct
head_of (some (some hs)) = hs
head_of _ = record {
  status_code = pos 0;
  etag = none;
  date = none;
  content_encoding = none;
  content_type = none;
  last_modified = none;
  server = none;
  via = none;
}

abbrev head : HeadStruct
head = head_of (simple_header request (codes "?1") (codes "http://h/r.xml") (codes "Mon"))

head-eq :
    simple_header request (codes "?1") (codes "http://h/r.xml") (codes "Mon") ≡ some (some head)
unfolding simple_header init_header perform parse_header status_line scan_status field_line
    other_line unmet_tests overwrite starts_with scan_int scan_run skip_space is_space digits_value
head-eq = refl

simple_header-IsUnset_example : IsUnset head
simple_header-IsUnset_example =
    simple_header-IsUnset request (codes "?1") (codes "http://h/r.xml") (codes "Mon") head head-eq

simple_header-status_example : head.status_code ≡ pos 304
simple_header-status_example =
    simple_header-status request (codes "?1") (codes "http://h/r.xml") (codes "Mon") head
      (replicate 20 0)
      (record { text = codes "Last-Modified: Mon\r\n"; behind = replicate 20 0 }
        ∷ record { text = codes "\r\n"; behind = replicate 20 0 }
        ∷ [])
      304 (codes "Not Modified\r\n") head-eq refl (omega arith) (omega arith)

abbrev calls : List Op
calls =
    add (codes "ab") (codes "1")
    ∷ add (codes "ba") (codes "2")
    ∷ del (codes "ab")
    ∷ val (codes "ba")
    ∷ val (codes "ab")
    ∷ []

run-map_run_example : run hash_new calls ≡ some (map_run empty calls)
unfolding hash positive_sum negative_sum
run-map_run_example = run-map_run calls (refl, (refl, (refl, (refl, (refl, tt)))))
