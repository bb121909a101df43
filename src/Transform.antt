-- ===== src/Transform.antt =====
-- src/transform_c/parser.c: the XML of a repository is read, and a database is made of it. Here `escape`,
-- by which text is written into XML again.
pub mod Entities
pub mod Stacks
pub mod Parser
pub mod Start
pub mod End
pub mod Handlers
pub mod Inside
pub mod Copy
use srepod.Prelude.{
  ℕ, ◌*◌, ◌+◌, Bool, true, false, Option, none, some, List, [], ◌∷◌, ◌++◌, ◌==◌, leb, if◌then◌else◌,
  CString, codes, length, take,
}

-- What is written for a character.
unfoldable pub escape_char : ℕ → CString
escape_char c =
    if c == b'&'
    then codes "&amp;"
    else if c == b'<'
    then codes "&lt;"
    else if c == b'>'
    then codes "&gt;"
    else if c == b'\''
    then codes "&apos;"
    else if c == b'"'
    then codes "&quot;"
    else c ∷ []

unfoldable pub escape_all : CString → CString
escape_all [] = []
escape_all (c ∷ s) = escape_char c ++ escape_all s

-- `escape(str, len)`, of at least `len` characters; `none` is a write past the end of the buffer, which
-- has `len*5+1` bytes.
unfoldable pub escape : CString → ℕ → Option CString
escape str len =
    if leb (length (escape_all (take len str)) + 1) (len * 5 + 1)
    then some (escape_all (take len str))
    else none
