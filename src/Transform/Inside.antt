-- ===== src/Transform/Inside.antt =====
-- src/transform_c/parser.c: each handler, inside of the metadata of a record that is copied.
use srepod.Prelude.{
  ℕ, ◌+◌, ◌-◌, ◌<◌, ◌==◌, true, false, some, [], ◌∷◌, ◌++◌, ◌≡◌, ◌∙◌, ap, refl, arith, ◌>>=◌,
  CString, codes, length, ltb,
}
use srepod.Transform.{escape}
use srepod.Transform.Parser.{
  Parser, Attributes, process_metadata, tmpsize, escape2, strcat, start_tag, end_tag, down,
}
use srepod.Transform.Stacks.{Stack, push, top, pop}
use srepod.Transform.Start.{
  count_found, start, start_element, start_known, start_copies, start_record, append_temporary2,
}
use srepod.Transform.End.{
  end, end_element, end_temporary, end_record, end_identify, end_metadata, end_prefixes, end_tags,
  end_scopes,
}
use srepod.Transform.Handlers.{
  Setting, start_event, end_event, text_event, comment_event, processing_event, handle, charhnld,
  take_text, comment_data, processing_data,
}

-- The state where a record is copied, and its metadata is open: `tmp` is the text of the record, and
-- `level` and `tags` are of the open elements.
abbrev pub inside : Parser → ℕ → Stack → CString → Parser
inside st level tags tmp = record st {
  pass = process_metadata;
  in_process = false;
  insidemetadata = true;
  carryon = true;
  level = level;
  tags = tags;
  temporary2 = tmp;
}

strcat-fits : (s t : CString) → length (s ++ t) < tmpsize → strcat tmpsize s t ≡ some (s ++ t)
unfolding strcat
strcat-fits s t l = let k : ltb (length (s ++ t)) tmpsize ≡ true = ground (arith, l) in rw k refl

-- The state behind the end of an element, but for what is copied.
abbrev pub count_end : Parser → Parser
count_end st = record st { depth = down st.depth }

module _ (st : Parser) (level : ℕ) (tags : Stack) (tmp el : CString) where
  known-inside :
      (attr : Attributes)
      → start_known (inside st level tags tmp) el attr ≡ some (inside st level tags tmp)
  unfolding start_known
  known-inside attr = refl

  copies-inside :
      (attr : Attributes)
      → start_copies (inside st level tags tmp) el attr ≡ some (inside st level tags tmp)
  unfolding start_copies
  copies-inside attr = refl

  append-inside :
      (t : CString)
      → length (tmp ++ t) < tmpsize
      → append_temporary2 (inside st level tags tmp) t ≡ some (inside st level tags (tmp ++ t))
  unfolding append_temporary2
  append-inside t l = rw (strcat-fits tmp t l, ◌>>=◌) refl

  record-inside :
      (attr : Attributes) {t : CString}
      → start_tag el attr ≡ some t
      → length (tmp ++ t) < tmpsize
      → start_record (inside st level tags tmp) el attr ≡ some (inside st level tags (tmp ++ t))
  unfolding start_record
  record-inside attr {t} e l = rw (e, ◌>>=◌) (rw (append-inside t l, ◌>>=◌) refl)

module _ (st : Parser) (level : ℕ) (tags : Stack) (tmp el : CString) where
  element-inside :
      (attr : Attributes) {t : CString}
      → start_tag el attr ≡ some t
      → length (tmp ++ t) < tmpsize
      → start_element (inside st level tags tmp) el attr
        ≡ some (inside (count_found st el) level (push el tags) (tmp ++ t))
  unfolding start_element
  element-inside attr {t} e l =
      rw (known-inside (count_found st el) level tags tmp el attr, ◌>>=◌)
        (rw (copies-inside (count_found st el) level tags tmp el attr, ◌>>=◌)
          (rw (record-inside (count_found st el) level tags tmp el attr e l, ◌>>=◌) refl))

  temporary-inside : end_temporary (inside st level tags tmp) el ≡ some (inside st level tags tmp)
  unfolding end_temporary
  temporary-inside = refl

  record-inside_end :
      length (tmp ++ end_tag el) < tmpsize
      → end_record (inside st level tags tmp) el ≡ some (inside st level tags (tmp ++ end_tag el))
  unfolding end_record
  record-inside_end l = rw (append-inside st level tags tmp el (end_tag el) l, ◌>>=◌) refl

  identify-inside : end_identify (inside st level tags tmp) el ≡ inside st level tags tmp
  unfolding end_identify
  identify-inside = refl

  metadata-inside :
      4 < level → end_metadata (inside st level tags tmp) el ≡ inside st level tags tmp
  unfolding end_metadata
  metadata-inside l = let k : (level == 4) ≡ false = ground (arith, l) in rw k refl

  prefixes-inside : end_prefixes (inside st level tags tmp) el ≡ inside st level tags tmp
  unfolding end_prefixes
  prefixes-inside = refl

  tags-inside :
      (tag : CString)
      → end_tags (inside st level (tag ∷ tags) tmp) ≡ some (inside st level tags tmp)
  unfolding end_tags top pop
  tags-inside tag = refl

module _ (st : Parser) (level : ℕ) (tags : Stack) (tmp el tag : CString) (deep : 4 < level) where
  scopes-inside : end_scopes (inside st level (tag ∷ tags) tmp) el ≡ some (inside st level tags tmp)
  unfolding end_scopes
  scopes-inside = rw (identify-inside st level (tag ∷ tags) tmp el) (
      rw (metadata-inside st level (tag ∷ tags) tmp el deep)
        (rw (prefixes-inside st level (tag ∷ tags) tmp el) (tags-inside st level tags tmp el tag)))

module _ (st : Parser) (level : ℕ) (tags : Stack) (tmp el tag : CString) (deep : 4 < level)
    (fits : length (tmp ++ end_tag el) < tmpsize) where
  end_element-inside :
      end_element (inside st level (tag ∷ tags) tmp) el
      ≡ some (inside (count_end st) level tags (tmp ++ end_tag el))
  unfolding end_element
  end_element-inside =
      rw (temporary-inside (count_end st) level (tag ∷ tags) tmp el, ◌>>=◌)
        (rw (record-inside_end (count_end st) level (tag ∷ tags) tmp el fits, ◌>>=◌)
          (scopes-inside (count_end st) level tags (tmp ++ end_tag el) el tag deep))

-- The handlers, inside of the metadata of a record.
module _ (g : Setting) (st : Parser) (level : ℕ) (tags : Stack) (tmp : CString) where
  pub start-inside :
      (el : CString) (attr : Attributes) {t : CString}
      → start_tag (escape2 el) attr ≡ some t
      → length (tmp ++ t) < tmpsize
      → handle g (inside st level tags tmp) (start_event el attr)
        ≡ some (inside (count_found st (escape2 el)) (level + 1) (escape2 el ∷ tags) (tmp ++ t))
  unfolding handle start push
  start-inside el attr e l = element-inside st (level + 1) tags tmp (escape2 el) attr e l

  pub end-inside :
      (el tag : CString)
      → 4 < level + 1
      → length (tmp ++ end_tag (escape2 el)) < tmpsize
      → handle g (inside st (level + 1) (tag ∷ tags) tmp) (end_event el)
        ≡ some (inside (count_end st) level tags (tmp ++ end_tag (escape2 el)))
  unfolding handle end
  end-inside el tag d l =
      rw (end_element-inside st (level + 1) tags tmp (escape2 el) tag d l, ◌>>=◌)
        (let k : level + 1 - 1 ≡ level = omega arith in rw k refl)

  pub text-inside :
      (s : CString) {t : CString}
      → escape s (length s) ≡ some t
      → length (tmp ++ t) < tmpsize
      → handle g (inside st level tags tmp) (text_event s) ≡ some (inside st level tags (tmp ++ t))
  unfolding handle charhnld take_text
  text-inside s {t} e l = rw (e, ◌>>=◌) (append-inside st level tags tmp [] t l)

  pub comment-inside :
      (s : CString) {t u : CString}
      → escape s (length s) ≡ some t
      → codes "<!--" ++ (t ++ codes "-->") ≡ u
      → length (tmp ++ u) < tmpsize
      → handle g (inside st level tags tmp) (comment_event s)
        ≡ some (inside st level tags (tmp ++ u))
  unfolding handle comment_data
  comment-inside s {t} {u} e k l =
      rw (e, ◌>>=◌)
        (ap (append_temporary2 (inside st level tags tmp)) k
          ∙ append-inside st level tags tmp [] u l)

  pub instruction-inside :
      (target s : CString) {u : CString}
      → codes "<?" ++ (target ++ (codes " " ++ (s ++ codes "?>"))) ≡ u
      → length (tmp ++ u) < tmpsize
      → handle g (inside st level tags tmp) (processing_event target s)
        ≡ some (inside st level tags (tmp ++ u))
  unfolding handle processing_data
  instruction-inside target s {u} k l =
      ap (append_temporary2 (inside st level tags tmp)) k ∙ append-inside st level tags tmp [] u l
