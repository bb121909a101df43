-- ===== src/Tests/Tables.antt =====
-- src/cconfig/hash.c: runs on a table of two names that share a bucket.
use srepod.Prelude.{Option, none, some, ◌≡◌, refl, arith, is_some, if◌then◌else◌, codes, str_eq}
use srepod.HashTable.Nodes.{find, store, unlink}
use srepod.HashTable.Items.{flat}
use srepod.HashTable.Iterate.{drain, drain-hash_val, occurrences}
use srepod.HashTable.Shape.{IsHashTable, hash_new-IsHashTable, hash_add-IsHashTable}
use srepod.HashTable.{
  HashTable, hash, positive_sum, negative_sum, change, chain_of, hash_new, hash_add, hash_del,
  hash_val, hash_next_reset,
}

abbrev or_new : Option HashTable → HashTable
or_new none = hash_new
or_new (some h) = h

abbrev one_name : HashTable
one_name = or_new (hash_add hash_new (codes "ab") (codes "1"))

-- "ba" has the hash value of "ab".
abbrev two_names : HashTable
two_names = or_new (hash_add one_name (codes "ba") (codes "2"))

one_name-eq : hash_add hash_new (codes "ab") (codes "1") ≡ some one_name
unfolding hash_new hash_add change hash positive_sum negative_sum store
one_name-eq = refl

two_names-eq : hash_add one_name (codes "ba") (codes "2") ≡ some two_names
unfolding hash_new hash_add change hash positive_sum negative_sum store
two_names-eq = refl

one_name-IsHashTable : IsHashTable one_name
one_name-IsHashTable =
    hash_add-IsHashTable hash_new (codes "ab") (codes "1") hash_new-IsHashTable one_name-eq

two_names-IsHashTable : IsHashTable two_names
two_names-IsHashTable =
    hash_add-IsHashTable one_name (codes "ba") (codes "2") one_name-IsHashTable two_names-eq

hash_del-eq : hash_del two_names (codes "ab") ≡ some (or_new (hash_del two_names (codes "ab")))
unfolding hash_new hash_add hash_del change hash positive_sum negative_sum store unlink
hash_del-eq = refl

ba-hash : hash (codes "ba") ≡ some 95
unfolding hash positive_sum negative_sum
ba-hash = refl

two_names-val : hash_val two_names (codes "ba") ≡ some (some (codes "2"))
unfolding hash_new hash_add change hash positive_sum negative_sum store hash_val chain_of find
    str_eq
two_names-val = refl

drain-hash_val_example :
    occurrences (codes "ba") (drain 3 (hash_next_reset two_names))
    ≡ (if is_some (some (codes "2")) then 1 else 0)
unfolding hash_new hash_add change hash positive_sum negative_sum store flat str_eq
drain-hash_val_example =
    drain-hash_val two_names 3 (codes "ba") two_names-IsHashTable (omega arith) two_names-val
