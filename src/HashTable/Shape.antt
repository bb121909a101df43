-- ===== src/HashTable/Shape.antt =====
-- The shape of a table that the operations of src/cconfig/hash.c keep: HASHSIZE chains, each name in
-- the chain of its hash value, and no name twice.
use srepod.Prelude.{
  ℕ, zero, suc, ◌+◌, ◌≤◌, Option, none, some, List, [], ◌∷◌, ◌≡◌, ◌≢◌, refl, arith, if◌then◌else◌,
  length, get_elem?, set, replicate, length-set, length-replicate, CString, str_eq, str_eq_iff,
  ◌>>=◌, ◌∙◌, >>=-eq-some,
}
use srepod.HashTable.Nodes.{
  Chain, find, store, unlink, count, find-unlink, count-unlink-le, count-assign, count-eq-zero,
}
use srepod.HashTable.Lookup.{change_inv, hash_val-change, change_total, get_elem?_total, hash-lt}
use srepod.HashTable.{
  HashTable, hash, hash_size, chain_of, hash_val, hash_add, hash_del, hash_new, change,
}

-- The names of one chain belong in bucket `i`, and there are no two nodes of one name.
pub record Fits (i : ℕ) (c : Chain) : Type 0 where
  pub placed : (q : CString) → hash q ≢ some i → count q c ≡ 0
  pub once : (q : CString) → count q c ≤ 1

-- The chains from bucket `i` on.
abbrev pub AllFit : ℕ → List Chain → Type 0
AllFit i [] = Unit
AllFit i (c ∷ cs) = Fits i c × AllFit (suc i) cs

pub record IsHashTable (h : HashTable) : Type 0 where
  pub size : length h.tree ≡ hash_size
  pub fits : AllFit 0 h.tree

Fits-nil : (i : ℕ) → Fits i []
unfolding count
Fits-nil i = record { placed = λ q h. refl; once = λ q. omega arith }

Fits-store : (i : ℕ) (n d : CString) (c : Chain) → hash n ≡ some i → Fits i c → Fits i (store n d c)
unfolding count store
Fits-store i n d c e f = record {
  placed = λ q k. ground (arith, f.placed q k, count-assign n q d c, str_eq_iff q n);
  once = λ q. ground (arith, f.once q, count-assign n q d c, str_eq_iff q n, count-eq-zero n c);
}

Fits-unlink : (i : ℕ) (n : CString) (c : Chain) → Fits i c → Fits i (unlink n c)
Fits-unlink i n c f = record {
  placed = λ q k. omega (arith, f.placed q k, count-unlink-le n q c);
  once = λ q. omega (arith, f.once q, count-unlink-le n q c);
}

plus_zero : (k : ℕ) → k + 0 ≡ k
plus_zero k = omega arith

plus_suc : (k i : ℕ) → k + suc i ≡ suc k + i
plus_suc k i = omega arith

pub AllFit-get_elem? :
    (k : ℕ) (cs : List Chain) (i : ℕ) {c : Chain}
    → AllFit k cs
    → get_elem? cs i ≡ some c
    → Fits (k + i) c
AllFit-get_elem? k [] i a e = absurd (ground arith)
AllFit-get_elem? k (x ∷ cs) zero {c} a e = let p : x ≡ c = cc in rw (← p) (rw (plus_zero k) a.0)
AllFit-get_elem? k (x ∷ cs) (suc i) a e = rw (plus_suc k i) (AllFit-get_elem? (suc k) cs i a.1 e)

AllFit-set :
    (k : ℕ) (cs : List Chain) (i : ℕ) (c : Chain)
    → AllFit k cs
    → Fits (k + i) c
    → AllFit k (set cs i c)
AllFit-set k [] i c a f = tt
AllFit-set k (x ∷ cs) zero c a f = (rw (plus_zero k) at f, a.1)
AllFit-set k (x ∷ cs) (suc i) c a f = (a.0, AllFit-set (suc k) cs i c a.1 (rw (plus_suc k i) at f))

AllFit-replicate : (k n : ℕ) → AllFit k (replicate n [])
AllFit-replicate k zero = tt
AllFit-replicate k (suc n) = (Fits-nil k, AllFit-replicate (suc k) n)

pub hash_new-IsHashTable : IsHashTable hash_new
unfolding hash_new
hash_new-IsHashTable = record {
  size = length-replicate {A = Chain} hash_size [];
  fits = AllFit-replicate 0 hash_size;
}

pub bucket-Fits :
    (h : HashTable) {i : ℕ} {c : Chain} → IsHashTable h → get_elem? h.tree i ≡ some c → Fits i c
bucket-Fits h {i} w e =
    let z : 0 + i ≡ i = omega arith in rw z at (AllFit-get_elem? 0 h.tree i w.fits e)

-- A change of one chain that keeps what fits in its bucket keeps the shape of the table.
change-IsHashTable :
    (h : HashTable) (n : CString) (f : Chain → Chain) {h' : HashTable}
    → ((i : ℕ) (c : Chain) → hash n ≡ some i → Fits i c → Fits i (f c))
    → IsHashTable h
    → change h n f ≡ some h'
    → IsHashTable h'
change-IsHashTable h n f keep w e =
    let (i, c, e₁, e₂, e₃) = change_inv h n f e in
    let z : 0 + i ≡ i = omega arith in
    rw e₃ (record {
      size = length-set h.tree i (f c) ∙ w.size;
      fits = AllFit-set 0 h.tree i (f c) w.fits (rw z (keep i c e₁ (bucket-Fits h w e₂)));
    })

-- `hash_add` keeps the shape of the table: 100 chains, and each name once, in the chain of its hash
-- value.
pub hash_add-IsHashTable :
    (h : HashTable) (n d : CString) {h' : HashTable}
    → IsHashTable h
    → hash_add h n d ≡ some h'
    → IsHashTable h'
unfolding hash_add
hash_add-IsHashTable h n d = change-IsHashTable h n (store n d) (λ i c. Fits-store i n d c)

-- `hash_del` keeps the shape of the table.
pub hash_del-IsHashTable :
    (h : HashTable) (n : CString) {h' : HashTable}
    → IsHashTable h
    → hash_del h n ≡ some h'
    → IsHashTable h'
unfolding hash_del
hash_del-IsHashTable h n = change-IsHashTable h n (unlink n) (λ i c _. Fits-unlink i n c)

chain-Fits :
    (h : HashTable) (n : CString) {c : Chain}
    → IsHashTable h
    → chain_of h n ≡ some c
    → (i : ℕ) × (hash n ≡ some i) × Fits i c
unfolding chain_of
chain-Fits h n w e = let (i, e₁, k) = >>=-eq-some (hash n) _ e in (i, e₁, bucket-Fits h w k)

-- In a table of the right shape a deleted name is not found any more, and every other name is found
-- as before.
pub hash_val-hash_del :
    (h : HashTable) (n q : CString) {h' : HashTable}
    → IsHashTable h
    → hash_del h n ≡ some h'
    → hash_val h' q ≡ (if str_eq n q then some none else hash_val h q)
unfolding hash_del
hash_val-hash_del h n q w e =
    hash_val-change h n q (unlink n) none e
      (λ c k. find-unlink n q c ((chain-Fits h n w k).2.once q))

-- In a table of the right shape the operations on a name with a hash value stay within the array.
pub hash_ops_total :
    (h : HashTable) (n d : CString) {i : ℕ}
    → IsHashTable h
    → hash n ≡ some i
    → ((h' : HashTable) × (hash_add h n d ≡ some h'))
      × ((h' : HashTable) × (hash_del h n ≡ some h'))
      × ((v : Option CString) × (hash_val h n ≡ some v))
unfolding hash_add hash_del hash_val chain_of
hash_ops_total h n d {i} w e =
    let (c, k) = get_elem?_total h.tree i (rw (← w.size) at (hash-lt n e)) in
    (
      change_total h n (store n d) w.size e,
      change_total h n (unlink n) w.size e,
      (find n c, rw (e, ◌>>=◌) (rw (k, ◌>>=◌))),
    )
