-- ===== src/HashTable/Nodes.antt =====
-- src/cconfig/hash.c: one chain of `struct nlist` nodes, with the loops of `lookup`, `hash_add` and
-- `hash_del` over it.
use srepod.Prelude.{
  ℕ, ◌+◌, ◌≤◌, true, Option, none, some, List, [], ◌∷◌, ◌++◌, ◌≡◌, refl, arith, if◌then◌else◌,
  is_some, CString, str_eq, str_eq_iff,
}

pub record Item : Type 0 where
  pub name : CString
  pub def : CString

abbrev pub Chain : Type 0
Chain = List Item

-- The value at the node that `lookup` finds.
unfoldable pub find : CString → Chain → Option CString
find q [] = none
find q (e ∷ c) = if str_eq q e.name then some e.def else find q c

-- `np->def = strsave(def)` at the node that `lookup` finds.
unfoldable pub assign : CString → CString → Chain → Chain
assign q d [] = []
assign q d (e ∷ c) =
    if str_eq q e.name then (record { name = e.name; def = d }) ∷ c else e ∷ assign q d c

-- `hash_add`: a new node in front, or a new value at the node that is there.
unfoldable pub store : CString → CString → Chain → Chain
unfolding find assign
store n d c = if is_some (find n c) then assign n d c else (record { name = n; def = d }) ∷ c

-- The loop of `hash_del`.
unfoldable pub unlink : CString → Chain → Chain
unlink q [] = []
unlink q (e ∷ c) = if str_eq q e.name then c else e ∷ unlink q c

-- How many nodes carry a name.
unfoldable pub count : CString → Chain → ℕ
count q [] = 0
count q (e ∷ c) = (if str_eq q e.name then 1 else 0) + count q c

pub count-append : (q : CString) (c d : Chain) → count q (c ++ d) ≡ count q c + count q d
unfolding count
count-append q [] d = omega arith
count-append q (e ∷ c) d = ground (arith, count-append q c d)

module _ (n q : CString) (d : CString) where
  pub find-assign :
      (c : Chain)
      → is_some (find n c) ≡ true
      → find q (assign n d c) ≡ (if str_eq n q then some d else find q c)
  unfolding find assign
  find-assign [] h = absurd (ground arith)
  find-assign (e ∷ c) h =
      ground (arith, find-assign c, str_eq_iff n q, str_eq_iff n e.name, str_eq_iff q e.name)

  pub count-assign : (c : Chain) → count q (assign n d c) ≡ count q c
  unfolding count assign
  count-assign [] = refl
  count-assign (e ∷ c) = ground (arith, count-assign c)

  pub find-store : (c : Chain) → find q (store n d c) ≡ (if str_eq n q then some d else find q c)
  unfolding find store
  find-store c = ground (arith, find-assign c, str_eq_iff n q, str_eq_iff q n)

pub find-eq-none : (q : CString) (c : Chain) → count q c ≡ 0 → find q c ≡ none
unfolding find count
find-eq-none q [] h = refl
find-eq-none q (e ∷ c) h = ground (arith, find-eq-none q c)

pub count-eq-zero : (q : CString) (c : Chain) → find q c ≡ none → count q c ≡ 0
unfolding find count
count-eq-zero q [] h = refl
count-eq-zero q (e ∷ c) h = ground (arith, count-eq-zero q c)

pub find-unlink :
    (n q : CString) (c : Chain)
    → count q c ≤ 1
    → find q (unlink n c) ≡ (if str_eq n q then none else find q c)
unfolding find unlink count
find-unlink n q [] h = ground arith
find-unlink n q (e ∷ c) h = ground (
  arith,
  find-unlink n q c,
  find-eq-none q c,
  str_eq_iff n q,
  str_eq_iff n e.name,
  str_eq_iff q e.name,
)

pub count-unlink-le : (n q : CString) (c : Chain) → count q (unlink n c) ≤ count q c
unfolding unlink count
count-unlink-le n q [] = omega arith
count-unlink-le n q (e ∷ c) = ground (arith, count-unlink-le n q c)
