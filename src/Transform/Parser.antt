-- ===== src/Transform/Parser.antt =====
-- src/transform_c/parser.c: the state of the parser, and what its handlers share.
use srepod.Prelude.{
  ℕ, zero, suc, ◌+◌, ◌*◌, ◌-◌, Bool, Option, none, some, List, [], ◌∷◌, ◌++◌, if◌then◌else◌, ◌>>=◌, CString,
  ℤ, pos, negsuc, codes, length, take, drop, leb, ltb, is_digit, starts_with,
}
use srepod.Transform.{escape}
use srepod.Transform.Stacks.{Stack, Database}

-- The variables of the program. `in_process` is true outside of a repository, as it is in the code;
-- `tags`, `ids`, `prefixes` and `temps` are the stacks S, I, P and T; `depth` and `total_found` are `Depth`
-- and `totalfound`.
pub record Parser : Type 0 where
  pub pass : ℕ
  pub in_process : Bool
  pub insidemetadata : Bool
  pub carryon : Bool
  pub baseu : Bool
  pub level : ℕ
  pub nid : ℕ
  pub nfm : ℕ
  pub fmt : CString
  pub temporary : CString
  pub temporary2 : CString
  pub dtf : CString
  pub dtl : CString
  pub tags : Stack
  pub ids : Stack
  pub prefixes : Stack
  pub temps : Stack
  pub db : Database
  pub depth : ℤ
  pub total_found : ℕ

-- `Depth++` and `Depth--`
unfoldable pub up : ℤ → ℤ
up (pos n) = pos (n + 1)
up (negsuc zero) = pos 0
up (negsuc (suc n)) = negsuc n

unfoldable pub down : ℤ → ℤ
down (pos zero) = negsuc 0
down (pos (suc n)) = pos n
down (negsuc n) = negsuc (n + 1)

abbrev pub process_none : ℕ
process_none = 0

abbrev pub process_datestamp : ℕ
process_datestamp = 1

abbrev pub process_identifier : ℕ
process_identifier = 2

abbrev pub process_metadataformat : ℕ
process_metadataformat = 3

abbrev pub process_identify : ℕ
process_identify = 4

abbrev pub process_metadata : ℕ
process_metadata = 5

abbrev pub process_metadataprefix : ℕ
process_metadataprefix = 33

abbrev pub buffsize : ℕ
buffsize = 8192

abbrev pub tmpsize : ℕ
tmpsize = 2 * 1024 * 1024

-- `escape2`, where `manda` is 1, as in all calls.
unfoldable pub escape2 : CString → CString
escape2 str = if starts_with str (codes "oai:") then drop 4 str else str

-- `strcat` onto an array of `size` bytes; `none` is a write past its end.
unfoldable pub strcat : ℕ → CString → CString → Option CString
strcat size buffer s = if ltb (length (buffer ++ s)) size then some (buffer ++ s) else none

abbrev pub Attributes : Type 0
Attributes = List (CString × CString)

-- `sprintf(attrib," %s=\"%s\"", attr[i], t)`; `attrib` has 1024 bytes.
unfoldable pub attribute_text : CString → CString → Option CString
attribute_text name value = do
  t ← escape value (length value)
  let attrib : CString = b' ' ∷ (name ++ (codes "=\"" ++ (t ++ codes "\"")))
  if ltb (length attrib) 1024 then some attrib else none

unfoldable pub attributes_text : Attributes → Option CString
attributes_text [] = some []
attributes_text ((name, value) ∷ attr) = do
  t ← attribute_text name value
  ts ← attributes_text attr
  some (t ++ ts)

unfoldable pub start_tag : CString → Attributes → Option CString
start_tag el attr = do t ← attributes_text attr; some (b'<' ∷ (el ++ (t ++ codes ">")))

abbrev pub end_tag : CString → CString
end_tag el = codes "</" ++ (el ++ codes ">")

-- `atol` on digits
unfoldable pub leading_value : ℕ → CString → ℕ
leading_value n [] = n
leading_value n (c ∷ s) = if is_digit c then leading_value (n * 10 + (c - b'0')) s else n

unfoldable pub digits_of : CString → CString
digits_of [] = []
digits_of (c ∷ s) = let rest = digits_of s in if is_digit c then c ∷ rest else rest

-- `numera`. The array `l1` of eight bytes has no NUL: `behind n` is the memory from its element `n` on,
-- of which digits are read as well. `none` is an access past the end of the text or of the array.
unfoldable pub numera : (ℕ → List ℕ) → CString → Option ℕ
numera behind texto =
    let l1 = digits_of (take 10 texto) in
    if ltb (length texto) 9
    then none
    else if leb (length l1) 8
    then some (leading_value 0 (l1 ++ behind (length l1)))
    else none
