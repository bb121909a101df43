-- ===== src/Transform/Stacks.antt =====
-- src/transform_c/stackli.c: stacks of C strings, and of src/transform_c/parser.c the functions on the
-- database, which call gdbm.
use srepod.Prelude.{Bool, false, ◌||◌, Option, none, some, List, [], ◌∷◌, CString, str_eq}

-- A stack behind its header, which holds no element: the top is first.
abbrev pub Stack : Type 0
Stack = List CString

abbrev pub create_stack : Stack
create_stack = []

unfoldable pub push : CString → Stack → Stack
push x s = x ∷ s

-- `none` is NULL.
unfoldable pub top : Stack → Option CString
top [] = none
top (x ∷ s) = some x

unfoldable pub pop : Stack → Stack
pop [] = []
pop (x ∷ s) = s

unfoldable pub make_empty : Stack → Stack
make_empty [] = []
make_empty (x ∷ s) = make_empty s

-- The loop of `InStack` from a node on that has an element: it does not look at the last one.
unfoldable pub in_nodes : CString → Stack → CString → Bool
in_nodes x [] str = false
in_nodes x (y ∷ s) str = str_eq x str || in_nodes y s str

-- `InStack`, from the header on.
unfoldable pub in_stack : Stack → CString → Bool
in_stack [] str = false
in_stack (x ∷ s) str = in_nodes x s str

-- A call that changes the database.
pub data Call : Type 0 where
  gdbm_store : CString → CString → Call
  gdbm_delete : CString → Call

-- The database is known by the calls that have been made, the last one first.
abbrev pub Database : Type 0
Database = List Call

-- What gdbm has for a key after calls; `none` is NULL.
abbrev pub Fetch : Type 0
Fetch = Database → CString → Option CString

unfoldable pub dataget : Fetch → Database → CString → Option CString
dataget gdbm_fetch db str = gdbm_fetch db str

unfoldable pub datadestroy : Database → CString → Database
datadestroy db str = gdbm_delete str ∷ db

-- Storage is always there, so that gdbm_store succeeds.
unfoldable pub dataput : Database → CString → CString → Database
dataput db newkey newkeyval = gdbm_store newkey newkeyval ∷ db
