-- ===== src/HashTable.antt =====
-- src/cconfig/hash.c: a chained hash table from C strings to C strings, with an iterator in it.
pub mod Nodes
pub mod Lookup
pub mod Shape
pub mod Items
pub mod Iterate
pub mod Refine
use srepod.Prelude.{
  ℕ, suc, ◌+◌, ◌-◌, ◌%◌, Option, none, some, List, [], ◌∷◌, leb, ltb, ◌==◌, if◌then◌else◌, ◌>>=◌,
  get_elem?, set, replicate, drop, CString,
}
use srepod.HashTable.Nodes.{Item, Chain, find, store, unlink}

-- A `char` is signed: a byte from 128 up counts as itself less 256. These are the sums of the
-- bytes above and below 0.
unfoldable pub positive_sum : CString → ℕ
positive_sum [] = 0
positive_sum (c ∷ s) = (if ltb c 128 then c else 0) + positive_sum s

unfoldable pub negative_sum : CString → ℕ
negative_sum [] = 0
negative_sum (c ∷ s) = (if ltb c 128 then 0 else 256 - c) + negative_sum s

abbrev pub hash_size : ℕ
hash_size = 100

-- `hashval % HASHSIZE`, which in C has the sign of `hashval`. A negative value, which every caller
-- uses as an index into the array, is `none`.
unfoldable pub hash : CString → Option ℕ
hash s =
    let p = positive_sum s in
    let n = negative_sum s in
    if leb n p
    then some ((p - n) % hash_size)
    else if (n - p) % hash_size == 0
    then some 0
    else none

-- `bucket` is `none` where the code has -1. `ptr` is the rest of the chain at the node to which the
-- code points; a client that changes the table calls `hash_next_reset` before it reads on.
pub record HashTable : Type 0 where
  pub bucket : Option ℕ
  pub ptr : Chain
  pub tree : List Chain

unfoldable pub hash_new : HashTable
hash_new = record { bucket = none; ptr = []; tree = replicate hash_size [] }

-- `h->tree[hash(name)]`; `none` is an access out of bounds.
unfoldable pub chain_of : HashTable → CString → Option Chain
chain_of h name = do i ← hash name; get_elem? h.tree i

-- `hash_val`, over `lookup`. The outer `none` is an access out of bounds, the inner one `NULL`.
unfoldable pub hash_val : HashTable → CString → Option (Option CString)
hash_val h name = do c ← chain_of h name; some (find name c)

-- A change of the chain in which `name` belongs.
unfoldable pub change : HashTable → CString → (Chain → Chain) → Option HashTable
change h name f = do
  i ← hash name
  c ← get_elem? h.tree i
  some (record h { tree = set h.tree i (f c) })

-- Storage is always there, so the status is 0 and the result is the table.
unfoldable pub hash_add : HashTable → CString → CString → Option HashTable
unfolding change
hash_add h name def = change h name (store name def)

unfoldable pub hash_del : HashTable → CString → Option HashTable
unfolding change
hash_del h name = change h name (unlink name)

unfoldable pub hash_next_reset : HashTable → HashTable
hash_next_reset h = record h { bucket = none }

-- The two nested loops, over the chains from bucket `b` on.
unfoldable pub scan : ℕ → List Chain → Option (Item × ℕ × Chain)
scan b [] = none
scan b ([] ∷ cs) = scan (suc b) cs
scan b ((e ∷ np) ∷ cs) = some (e, b, np)

-- The chains that are still to be read: in the current bucket what `ptr` has left.
unfoldable pub pending : HashTable → ℕ × List Chain
pending h = elim h.bucket [ none ↦ (0, h.tree) | some b ↦ (b, h.ptr ∷ drop (suc b) h.tree) ]

unfoldable pub hash_next_item : HashTable → Option (Item × HashTable)
hash_next_item h = do
  (e, b, np) ← scan (pending h).0 (pending h).1
  some (e, record h { bucket = some b; ptr = np })

unfoldable pub hash_next_key : HashTable → Option (CString × HashTable)
hash_next_key h = do (e, h') ← hash_next_item h; some (e.name, h')

unfoldable pub hash_next_val : HashTable → Option (CString × HashTable)
hash_next_val h = do (e, h') ← hash_next_item h; some (e.def, h')
