-- ===== src/HashTable/Lookup.antt =====
-- What `hash_add` and `hash_del` do to the value that `hash_val` finds under each name.
use srepod.Prelude.{
  ℕ, zero, suc, ◌%◌, ◌<◌, Option, none, some, List, [], ◌∷◌, ◌≡◌, inl, inr, refl, arith,
  if◌then◌else◌, ◌>>=◌, length, get_elem?, set, replicate, get_elem?-set, CString, str_eq,
  str_eq_iff, Option-cases, >>=-eq-some,
}
use srepod.HashTable.Nodes.{Chain, find, store, find-store}
use srepod.HashTable.{
  HashTable, hash, hash_size, positive_sum, negative_sum, chain_of, hash_val, hash_add, hash_new,
  change,
}

pub get_elem?-lt :
    {A : Type 0} (xs : List A) (i : ℕ) {a : A} → get_elem? xs i ≡ some a → i < length xs
get_elem?-lt [] i h = absurd (ground arith)
get_elem?-lt (x ∷ xs) zero h = omega arith
get_elem?-lt (x ∷ xs) (suc i) h = omega (arith, get_elem?-lt xs i h)

pub get_elem?_total :
    {A : Type 0} (xs : List A) (i : ℕ) → i < length xs → (a : A) × (get_elem? xs i ≡ some a)
get_elem?_total [] i h = absurd (omega arith)
get_elem?_total (x ∷ xs) zero h = (x, refl)
get_elem?_total (x ∷ xs) (suc i) h = get_elem?_total xs i (omega arith)

pub hash-lt : (s : CString) {i : ℕ} → hash s ≡ some i → i < hash_size
unfolding hash
hash-lt s h = ground arith

-- Every byte is an ASCII character.
abbrev pub IsAscii : CString → Type 0
IsAscii [] = Unit
IsAscii (c ∷ s) = (c < 128) × IsAscii s

pub negative_sum-IsAscii : (s : CString) → IsAscii s → negative_sum s ≡ 0
unfolding negative_sum
negative_sum-IsAscii [] h = refl
negative_sum-IsAscii (c ∷ s) h = ground (arith, negative_sum-IsAscii s h.1)

pub hash-IsAscii : (s : CString) → IsAscii s → hash s ≡ some (positive_sum s % hash_size)
unfolding hash
hash-IsAscii s h = ground (arith, negative_sum-IsAscii s h)

pub change_inv :
    (h : HashTable) (n : CString) (f : Chain → Chain) {h' : HashTable}
    → change h n f ≡ some h'
    → (i : ℕ) × (c : Chain) × (hash n ≡ some i)
      × (get_elem? h.tree i ≡ some c)
      × (h' ≡ record h { tree = set h.tree i (f c) })
unfolding change
change_inv h n f e =
    let (i, e₁, k) = >>=-eq-some (hash n) _ e in
    let (c, e₂, l) = >>=-eq-some (get_elem? h.tree i) _ k in (i, c, e₁, e₂, cc)

module _ (h : HashTable) (n q : CString) (f : Chain → Chain) (found : Option CString) where
  -- What is found under each name once one chain has changed.
  hash_val-set :
      (i : ℕ) (c : Chain)
      → hash n ≡ some i
      → get_elem? h.tree i ≡ some c
      → find q (f c) ≡ (if str_eq n q then found else find q c)
      → hash_val (record h { tree = set h.tree i (f c) }) q
        ≡ (if str_eq n q then some found else hash_val h q)
  unfolding hash_val chain_of
  hash_val-set i c e₁ e₂ k = elim (Option-cases (hash q)) [
    | inl out ↦ ground (arith, str_eq_iff n q)
    | inr (j, e₃) ↦
        ground (arith, str_eq_iff n q, get_elem?-set h.tree i j (f c), get_elem?-lt h.tree i e₂)
  ]

  pub hash_val-change :
      {h' : HashTable}
      → change h n f ≡ some h'
      → ((c : Chain)
          → chain_of h n ≡ some c
          → find q (f c) ≡ (if str_eq n q then found else find q c))
      → hash_val h' q ≡ (if str_eq n q then some found else hash_val h q)
  hash_val-change e g =
      let (i, c, e₁, e₂, e₃) = change_inv h n f e in
      rw e₃ (hash_val-set i c e₁ e₂ (g c (unfold chain_of in rw (e₁, ◌>>=◌) e₂)))

-- A name that was stored is found with the value that was stored last; a name that was not stored is
-- found as before.
pub hash_val-hash_add :
    (h : HashTable) (n d q : CString) {h' : HashTable}
    → hash_add h n d ≡ some h'
    → hash_val h' q ≡ (if str_eq n q then some (some d) else hash_val h q)
unfolding hash_add
hash_val-hash_add h n d q e =
    hash_val-change h n q (store n d) (some d) e (λ c _. find-store n q d c)

pub change_total :
    (h : HashTable) (n : CString) (f : Chain → Chain) {i : ℕ}
    → length h.tree ≡ hash_size
    → hash n ≡ some i
    → (h' : HashTable) × (change h n f ≡ some h')
unfolding change
change_total h n f {i} l e =
    let (c, k) = get_elem?_total h.tree i (omega (arith, hash-lt n e)) in
    (record h { tree = set h.tree i (f c) }, rw (e, ◌>>=◌) (rw (k, ◌>>=◌)))

get_elem?-replicate : {A : Type 0} (n i : ℕ) (x : A) → i < n → get_elem? (replicate n x) i ≡ some x
get_elem?-replicate zero i x l = absurd (omega arith)
get_elem?-replicate (suc n) zero x l = refl
get_elem?-replicate (suc n) (suc i) x l = get_elem?-replicate n i x (omega arith)

-- A new table finds nothing.
pub hash_val-hash_new : (q : CString) {i : ℕ} → hash q ≡ some i → hash_val hash_new q ≡ some none
unfolding hash_val chain_of hash_new find
hash_val-hash_new q {i} e =
    let n : Chain = [] in
    rw (e, ◌>>=◌) (rw (get_elem?-replicate hash_size i n (hash-lt q e), ◌>>=◌))
