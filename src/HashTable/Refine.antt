-- ===== src/HashTable/Refine.antt =====
-- The finite map from names to values that the table of src/cconfig/hash.c stands for, and what a
-- client sees of it through a run of calls.
use srepod.Prelude.{
  ℕ, Bool, true, Option, none, some, List, [], ◌∷◌, ◌≡◌, refl, arith, if◌then◌else◌, is_some,
  CString, str_eq, ◌>>=◌, Option-cases, inl, inr,
}
use srepod.HashTable.Lookup.{hash_val-hash_add, hash_val-hash_new}
use srepod.HashTable.Shape.{
  IsHashTable, hash_new-IsHashTable, hash_add-IsHashTable, hash_del-IsHashTable, hash_val-hash_del,
  hash_ops_total,
}
use srepod.HashTable.{HashTable, hash, hash_val, hash_add, hash_del, hash_new}

abbrev pub FiniteMap : Type 0
FiniteMap = CString → Option CString

abbrev pub empty : FiniteMap
empty q = none

abbrev pub update : CString → Option CString → FiniteMap → FiniteMap
update n v m q = if str_eq n q then v else m q

-- A call of a client.
pub data Op : Type 0 where
  add : CString → CString → Op
  del : CString → Op
  val : CString → Op

-- What the calls of `hash_val` return, in their order; `none` is an access out of bounds.
unfoldable pub run : HashTable → List Op → Option (List (Option CString))
run h [] = some []
run h (add n d ∷ ops) = do h' ← hash_add h n d; run h' ops
run h (del n ∷ ops) = do h' ← hash_del h n; run h' ops
run h (val n ∷ ops) = do v ← hash_val h n; vs ← run h ops; some (v ∷ vs)

-- The same calls on a finite map, which cannot fail.
unfoldable pub map_run : FiniteMap → List Op → List (Option CString)
map_run m [] = []
map_run m (add n d ∷ ops) = map_run (update n (some d) m) ops
map_run m (del n ∷ ops) = map_run (update n none m) ops
map_run m (val n ∷ ops) = m n ∷ map_run m ops

abbrev pub has_hash : CString → Bool
has_hash n = is_some (hash n)

-- Every name that is passed has a hash value: its sum is not negative, or a multiple of 100.
abbrev pub AllHashed : List Op → Type 0
AllHashed [] = Unit
AllHashed (add n d ∷ ops) = (has_hash n ≡ true) × AllHashed ops
AllHashed (del n ∷ ops) = (has_hash n ≡ true) × AllHashed ops
AllHashed (val n ∷ ops) = (has_hash n ≡ true) × AllHashed ops

pub record Represents (h : HashTable) (m : FiniteMap) : Type 0 where
  pub shape : IsHashTable h
  pub values : (q : CString) → has_hash q ≡ true → hash_val h q ≡ some (m q)

hash_of : (n : CString) → has_hash n ≡ true → (i : ℕ) × (hash n ≡ some i)
hash_of n e = elim (Option-cases (hash n)) [ inl p ↦ absurd (ground arith) | inr r ↦ r ]

hash_new-Represents : Represents hash_new empty
hash_new-Represents = record {
  shape = hash_new-IsHashTable;
  values = λ q e. hash_val-hash_new q (hash_of q e).1;
}

hash_add-Represents :
    {h h' : HashTable} {m : FiniteMap} (n d : CString)
    → Represents h m
    → hash_add h n d ≡ some h'
    → Represents h' (update n (some d) m)
hash_add-Represents {h} n d r e = record {
  shape = hash_add-IsHashTable h n d r.shape e;
  values = λ q k. ground (arith, hash_val-hash_add h n d q e, r.values q k);
}

hash_del-Represents :
    {h h' : HashTable} {m : FiniteMap} (n : CString)
    → Represents h m
    → hash_del h n ≡ some h'
    → Represents h' (update n none m)
hash_del-Represents {h} n r e = record {
  shape = hash_del-IsHashTable h n r.shape e;
  values = λ q k. ground (arith, hash_val-hash_del h n q r.shape e, r.values q k);
}

-- Runs from a table that stands for a map.
run-Represents :
    (ops : List Op) {h : HashTable} {m : FiniteMap}
    → Represents h m
    → AllHashed ops
    → run h ops ≡ some (map_run m ops)
unfolding run map_run
run-Represents [] r a = refl
run-Represents (add n d ∷ ops) {h} r a =
    let (h', e) = (hash_ops_total h n d r.shape (hash_of n a.0).1).0 in
    rw (e, ◌>>=◌) (run-Represents ops (hash_add-Represents n d r e) a.1)
run-Represents (del n ∷ ops) {h} r a =
    let (h', e) = (hash_ops_total h n n r.shape (hash_of n a.0).1).1 in
    rw (e, ◌>>=◌) (run-Represents ops (hash_del-Represents n r e) a.1)
run-Represents (val n ∷ ops) r a =
    rw (r.values n a.0, ◌>>=◌) (rw (run-Represents ops r a.1, ◌>>=◌) refl)

-- Whatever a client adds, deletes and looks up in a new table, by names that have a hash value, no
-- call leaves the array, and every look-up returns what a finite map from names to values has.
pub run-map_run : (ops : List Op) → AllHashed ops → run hash_new ops ≡ some (map_run empty ops)
run-map_run ops a = run-Represents ops hash_new-Represents a
