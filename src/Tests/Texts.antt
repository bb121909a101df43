-- ===== src/Tests/Texts.antt =====
-- src/transform_c/parser.c: a text with a character of its own in XML.
use srepod.Prelude.{none, some, ◌≡◌, refl, arith, codes, take, replicate}
use srepod.Transform.Entities.{unescape, unescape-escape, escape-has_no_quote}
use srepod.Transform.{escape_char, escape_all, escape}

less-escaped : escape (codes "a<b") 3 ≡ some (codes "a&lt;b")
unfolding escape escape_all escape_char
less-escaped = refl

unescape-escape_example : unescape 0 (codes "a&lt;b") ≡ take 3 (codes "a<b")
unescape-escape_example = unescape-escape (codes "a<b") 3 (codes "a&lt;b") less-escaped

escape-has_no_quote_example :
    (escape (codes "a<b") 3 ≡ some (escape_all (codes "a<b")))
    × (escape (replicate 2 b'"') 2 ≡ none)
escape-has_no_quote_example = escape-has_no_quote (codes "a<b") 2 refl (omega arith)
