-- ===== src/HashTable/Items.antt =====
-- The items of the table of src/cconfig/hash.c as one list, the finite map that the table stands for.
use srepod.Prelude.{
  ℕ, zero, suc, ◌+◌, ◌≤◌, ◌<◌, Option, none, some, List, [], ◌∷◌, ◌++◌, ◌≡◌, inl, inr, refl, arith,
  if◌then◌else◌, is_some, get_elem?, CString, Option-cases, ◌>>=◌, ap, sym, ◌∙◌, >>=-eq-some,
}
use srepod.HashTable.Nodes.{Chain, find, count, count-append, find-eq-none}
use srepod.HashTable.Lookup.{get_elem?_total, hash-lt}
use srepod.HashTable.Shape.{IsHashTable, AllFit, bucket-Fits}
use srepod.HashTable.{HashTable, hash, chain_of, hash_val}

abbrev pub flat : List Chain → Chain
flat [] = []
flat (c ∷ cs) = c ++ flat cs

find-append-left : (q : CString) (c d : Chain) → count q d ≡ 0 → find q (c ++ d) ≡ find q c
unfolding find
find-append-left q [] d z = find-eq-none q d z
find-append-left q (e ∷ c) d z = ground (arith, find-append-left q c d z)

find-append-right : (q : CString) (c d : Chain) → count q c ≡ 0 → find q (c ++ d) ≡ find q d
unfolding find count
find-append-right q [] d z = refl
find-append-right q (e ∷ c) d z = ground (arith, find-append-right q c d)

-- A name of a lower bucket does not stand in the buckets from `k` on.
count-flat-lt :
    (k : ℕ) (cs : List Chain) (q : CString) (j : ℕ)
    → AllFit k cs
    → hash q ≡ some j
    → j < k
    → count q (flat cs) ≡ 0
count-flat-lt k [] q j a e l = unfold count in refl
count-flat-lt k (c ∷ cs) q j a e l = omega (
  arith,
  count-append q c (flat cs),
  a.0.placed q (λ e'. ground arith),
  count-flat-lt (suc k) cs q j a.1 e,
)

count-flat :
    (k : ℕ) (cs : List Chain) (q : CString) (i j : ℕ) {c : Chain}
    → AllFit k cs
    → hash q ≡ some j
    → j ≡ k + i
    → get_elem? cs i ≡ some c
    → count q (flat cs) ≡ count q c
count-flat k [] q i j a e l g = absurd (ground arith)
count-flat k (c' ∷ cs) q zero j {c} a e l g =
    let p : c' ≡ c = cc in
    rw (← p) (omega (arith, count-append q c' (flat cs), count-flat-lt (suc k) cs q j a.1 e))
count-flat k (c' ∷ cs) q (suc i) j a e l g = omega (
  arith,
  count-append q c' (flat cs),
  a.0.placed q (λ e'. ground arith),
  count-flat (suc k) cs q i j a.1 e (omega arith) g,
)

find-flat :
    (k : ℕ) (cs : List Chain) (q : CString) (i j : ℕ) {c : Chain}
    → AllFit k cs
    → hash q ≡ some j
    → j ≡ k + i
    → get_elem? cs i ≡ some c
    → find q (flat cs) ≡ find q c
find-flat k [] q i j a e l g = absurd (ground arith)
find-flat k (c' ∷ cs) q zero j {c} a e l g =
    let p : c' ≡ c = cc in
    rw (← p) (find-append-left q c' (flat cs) (count-flat-lt (suc k) cs q j a.1 e (omega arith)))
find-flat k (c' ∷ cs) q (suc i) j a e l g =
    find-append-right q c' (flat cs) (a.0.placed q (λ e'. ground arith))
    ∙ find-flat (suc k) cs q i j a.1 e (omega arith) g

count-eq-found :
    (q : CString) (c : Chain) → count q c ≤ 1 → count q c ≡ (if is_some (find q c) then 1 else 0)
unfolding count find
count-eq-found q [] l = refl
count-eq-found q (e ∷ c) l = ground (arith, count-eq-found q c)

count-flat-none :
    (k : ℕ) (cs : List Chain) (q : CString) → AllFit k cs → hash q ≡ none → count q (flat cs) ≡ 0
count-flat-none k [] q a e = unfold count in refl
count-flat-none k (c ∷ cs) q a e = omega (
  arith,
  count-append q c (flat cs),
  a.0.placed q (λ e'. ground arith),
  count-flat-none (suc k) cs q a.1 e,
)

-- What the table finds is what the list of its items holds.
pub hash_val-find :
    (h : HashTable) (q : CString) {i : ℕ}
    → IsHashTable h
    → hash q ≡ some i
    → hash_val h q ≡ some (find q (flat h.tree))
unfolding hash_val chain_of
hash_val-find h q {i} w e =
    let (c, k) = get_elem?_total h.tree i (rw (← w.size) at (hash-lt q e)) in
    rw (e, ◌>>=◌)
      (rw (k, ◌>>=◌) (ap some (sym (find-flat 0 h.tree q i i w.fits e (omega arith) k))))

-- No name stands twice among the items.
pub count-items-le : (h : HashTable) (q : CString) → IsHashTable h → count q (flat h.tree) ≤ 1
count-items-le h q w = elim (Option-cases (hash q)) [
  | inl e ↦ omega (arith, count-flat-none 0 h.tree q w.fits e)
  | inr (i, e) ↦
      let (c, k) = get_elem?_total h.tree i (rw (← w.size) at (hash-lt q e)) in
      omega (arith, count-flat 0 h.tree q i i w.fits e (omega arith) k, (bucket-Fits h w k).once q)
]

-- An item has a hash value, since it stands in a bucket.
pub count-items-hash :
    (h : HashTable) (q : CString)
    → IsHashTable h
    → 1 ≤ count q (flat h.tree)
    → (i : ℕ) × (hash q ≡ some i)
count-items-hash h q w l = elim (Option-cases (hash q)) [
  | inl e ↦ absurd (omega (arith, count-flat-none 0 h.tree q w.fits e))
  | inr r ↦ r
]

hash_val-hash :
    (h : HashTable) (q : CString) {v : Option CString}
    → hash_val h q ≡ some v
    → (i : ℕ) × (hash q ≡ some i)
unfolding hash_val chain_of
hash_val-hash h q e =
    let (c, e₁, k₁) = >>=-eq-some (chain_of h q) _ e in
    let (i, e₂, k₂) = >>=-eq-some (hash q) _ e₁ in (i, e₂)

pub count-items :
    (h : HashTable) (q : CString) {v : Option CString}
    → IsHashTable h
    → hash_val h q ≡ some v
    → count q (flat h.tree) ≡ (if is_some v then 1 else 0)
count-items h q {v} w e =
    let (i, e₁) = hash_val-hash h q e in
    let f : find q (flat h.tree) ≡ v = cc (hash_val-find h q w e₁) in
    rw (← f) (count-eq-found q (flat h.tree) (count-items-le h q w))
