-- ===== src/HashTable/Iterate.antt =====
-- The iteration of src/cconfig/hash.c: what repeated calls of `hash_next_key` return.
use srepod.Prelude.{
  ℕ, zero, suc, ◌+◌, ◌<◌, Option, none, some, List, [], ◌∷◌, ◌++◌, ◌≡◌, ◌⊎◌, inl, inr, refl, arith,
  if◌then◌else◌, is_some, length, drop, CString, str_eq, Option-cases, ◌>>=◌, ap,
}
use srepod.HashTable.Items.{flat, count-items}
use srepod.HashTable.Nodes.{Item, Chain, count}
use srepod.HashTable.Shape.{IsHashTable}
use srepod.HashTable.{
  HashTable, hash_val, hash_next_reset, hash_next_item, hash_next_key, scan, pending,
}

-- What the iterator has still to return.
abbrev pub remaining : HashTable → Chain
remaining h = flat (pending h).1

abbrev pub names : Chain → List CString
names [] = []
names (e ∷ c) = e.name ∷ names c

drop-suc :
    {A : Type 0} (n : ℕ) (xs : List A) {y : A} {ys : List A}
    → drop n xs ≡ y ∷ ys
    → drop (suc n) xs ≡ ys
drop-suc zero [] e = absurd (ground arith)
drop-suc (suc n) [] e = absurd (ground arith)
drop-suc zero (x ∷ xs) e = cc
drop-suc (suc n) (x ∷ xs) e = drop-suc n xs e

-- When the scan returns a node, it and what is behind it are what was pending.
scan-some :
    (tree : List Chain) (b : ℕ) (c : Chain) (cs : List Chain) {e : Item} {b' : ℕ} {np : Chain}
    → drop (suc b) tree ≡ cs
    → scan b (c ∷ cs) ≡ some (e, b', np)
    → c ++ flat cs ≡ e ∷ (np ++ flat (drop (suc b') tree))
unfolding scan
scan-some tree b (x ∷ c) cs d s = rw (← d) (cc)
scan-some tree b [] [] d s = absurd (ground arith)
scan-some tree b [] (c ∷ cs) d s = scan-some tree (suc b) c cs (drop-suc (suc b) tree d) s

scan-none : (b : ℕ) (cs : List Chain) → scan b cs ≡ none → flat cs ≡ []
unfolding scan
scan-none b [] s = refl
scan-none b ([] ∷ cs) s = scan-none (suc b) cs s
scan-none b ((x ∷ c) ∷ cs) s = cc

scan-pending :
    (bucket : Option ℕ) (ptr : Chain) (tree : List Chain) {e : Item} {b : ℕ} {np : Chain}
    → let h : HashTable = record { bucket = bucket; ptr = ptr; tree = tree } in
      scan (pending h).0 (pending h).1 ≡ some (e, b, np)
      → remaining h ≡ e ∷ (np ++ flat (drop (suc b) tree))
unfolding pending
scan-pending none ptr [] s = absurd (unfold scan in cc)
scan-pending none ptr (c ∷ cs) s = scan-some (c ∷ cs) 0 c cs refl s
scan-pending (some b) ptr tree s = scan-some tree b ptr (drop (suc b) tree) refl s

-- `hash_next_item` takes the first of the items that remain, and leaves the table as it is.
pub hash_next_item-cases :
    (h : HashTable)
    → ((hash_next_item h ≡ none) × (remaining h ≡ []))
      ⊎ ((e : Item) × (h' : HashTable) × (hash_next_item h ≡ some (e, h'))
          × (remaining h ≡ e ∷ remaining h')
          × (h'.tree ≡ h.tree))
unfolding hash_next_item
hash_next_item-cases h = elim (Option-cases (scan (pending h).0 (pending h).1)) [
  | inl s ↦ inl (rw (s, ◌>>=◌), scan-none (pending h).0 (pending h).1 s)
  | inr ((e, b, np), s) ↦ inr (
    e,
    record h { bucket = some b; ptr = np },
    rw (s, ◌>>=◌),
    unfold pending in scan-pending h.bucket h.ptr h.tree s,
    refl,
  )
]

-- `while ((key = hash_next_key(h)) != NULL)`, with a bound on its rounds.
unfoldable pub drain : ℕ → HashTable → List CString
drain zero h = []
drain (suc fuel) h = elim (hash_next_key h) [ none ↦ [] | some (k, h') ↦ k ∷ drain fuel h' ]

drain-remaining :
    (fuel : ℕ) (h : HashTable) → length (remaining h) < fuel → drain fuel h ≡ names (remaining h)
unfolding drain hash_next_key
drain-remaining zero h l = absurd (omega arith)
drain-remaining (suc fuel) h l = elim (hash_next_item-cases h) [
  | inl (e, r) ↦ rw (drain, hash_next_key, e, ◌>>=◌) (rw r)
  | inr (i, h', e, r, t) ↦
      rw (drain, hash_next_key, e, ◌>>=◌)
        (rw r (
          ap (◌∷◌ i.name) (
            drain-remaining fuel h' (
              let k : length (remaining h) ≡ suc (length (remaining h')) = ap length r in
              omega arith))))
]

unfoldable pub occurrences : CString → List CString → ℕ
occurrences q [] = 0
occurrences q (n ∷ ns) = (if str_eq q n then 1 else 0) + occurrences q ns

occurrences-names : (q : CString) (c : Chain) → occurrences q (names c) ≡ count q c
unfolding occurrences count
occurrences-names q [] = refl
occurrences-names q (e ∷ c) = ground (arith, occurrences-names q c)

-- In a table of the right shape the loop over `hash_next_key`, from `hash_next_reset` on and with
-- more rounds than the table has items, meets a name once if `hash_val` finds it, and not at all if
-- it does not.
pub drain-hash_val :
    (h : HashTable) (fuel : ℕ) (q : CString) {v : Option CString}
    → IsHashTable h
    → length (flat h.tree) < fuel
    → hash_val h q ≡ some v
    → occurrences q (drain fuel (hash_next_reset h)) ≡ (if is_some v then 1 else 0)
unfolding hash_next_reset pending
drain-hash_val h fuel q {v} w l e =
    rw (drain-remaining fuel (hash_next_reset h) l, occurrences-names) (count-items h q w e)
