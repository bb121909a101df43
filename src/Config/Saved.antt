-- ===== src/Config/Saved.antt =====
-- src/cconfig/cconfig.c: `config_save` writes one line for each item of the table that is not the
-- module's own.
use srepod.Prelude.{
  ℕ, zero, suc, ◌≤◌, ◌<◌, some, [], ◌∷◌, ◌++◌, if◌then◌else◌, ◌>>=◌, arith, refl, ◌≡◌, ◌∙◌, ap, sym,
  inl, inr, CString, codes, str_eq_refl, length, append_assoc,
}
use srepod.HashTable.Nodes.{Item, Chain, find, count, count-append}
use srepod.HashTable.Iterate.{remaining, hash_next_item-cases}
use srepod.HashTable.Items.{flat, hash_val-find, count-items-le, count-items-hash}
use srepod.HashTable.Shape.{IsHashTable}
use srepod.HashTable.{HashTable, chain_of, hash_val, hash_next_key, hash_next_reset, pending}
use srepod.Config.{Config, saved_line, is_hidden, save_items, config_save, warning_line}

-- The text of the items that are written.
abbrev pub saved : Chain → CString
saved [] = []
saved (e ∷ c) = (if is_hidden e.name then [] else saved_line e.name e.def) ++ saved c

-- Every item of a chain is found in a table with the value that it has.
abbrev pub Stored : HashTable → Chain → Type 0
Stored h [] = Unit
Stored h (e ∷ c) = (hash_val h e.name ≡ some (some e.def)) × Stored h c

hash_val_tree : (h h' : HashTable) (q : CString) → h'.tree ≡ h.tree → hash_val h' q ≡ hash_val h q
unfolding hash_val chain_of
hash_val_tree h h' q e = rw e

Stored-tree : (h h' : HashTable) (c : Chain) → h'.tree ≡ h.tree → Stored h c → Stored h' c
Stored-tree h h' [] e s = tt
Stored-tree h h' (i ∷ c) e s = (hash_val_tree h h' i.name e ∙ s.0, Stored-tree h h' c e s.1)

save_items-saved :
    (fuel : ℕ) (h : HashTable)
    → length (remaining h) < fuel
    → Stored h (remaining h)
    → (h' : HashTable) × (save_items fuel h ≡ some (saved (remaining h), h')) × (h'.tree ≡ h.tree)
unfolding save_items hash_next_key
save_items-saved zero h l s = absurd (omega arith)
save_items-saved (suc fuel) h l s = elim (hash_next_item-cases h) [
  | inl (e, r) ↦ (h, rw (save_items, hash_next_key, e, ◌>>=◌) (rw r), refl)
  | inr (i, h', e, r, t) ↦
      let s' = rw r at s in
      let (h'', k, t') =
        save_items-saved fuel h'
          (let q : length (remaining h) ≡ suc (length (remaining h')) = ap length r in omega arith)
          (Stored-tree h h' (remaining h') t s'.1) in
      (
        h'',
        rw (save_items, hash_next_key, e, ◌>>=◌) (rw (hash_val_tree h h' i.name t ∙ s'.0, k, r)),
        t' ∙ t,
      )
]

pub count_self : (e : Item) (d : Chain) → 1 ≤ count e.name (e ∷ d)
unfolding count
count_self e d = rw (str_eq_refl e.name) (omega arith)

find-split :
    (c d : Chain) (e : Item) → count e.name (c ++ e ∷ d) ≤ 1 → find e.name (c ++ e ∷ d) ≡ some e.def
unfolding find count
find-split [] d e l = rw (str_eq_refl e.name)
find-split (i ∷ c) d e l =
    ground (arith, find-split c d e, count-append e.name c (e ∷ d), count_self e d)

Stored-items : (h : HashTable) (c d : Chain) → IsHashTable h → flat h.tree ≡ c ++ d → Stored h d
Stored-items h c [] w e = tt
Stored-items h c (i ∷ d) w e =
    let once = rw e at (count-items-le h i.name w) in
    let (j, k) =
      count-items-hash h i.name w
        (rw e (omega (arith, count-append i.name c (i ∷ d), count_self i d))) in
    (
      hash_val-find h i.name w k ∙ ap some (rw e (find-split c d i once)),
      Stored-items h (c ++ i ∷ []) d w (e ∙ sym (append_assoc c (i ∷ []) d)),
    )

-- What `config_save` leaves, for a table of the right shape with the pointer of the open file: in a file
-- that is open for writing the warning, and a line for each item that is not hidden, in the order of
-- the buckets; a file that is open for reading as it is. The items stay as they are.
pub config_save-saved :
    (fp : CString) (c : Config)
    → IsHashTable c.table
    → hash_val c.table (codes "__FP__") ≡ some (some fp)
    → (c' : Config) × (config_save fp c ≡ some c')
      × (c'.table.tree ≡ c.table.tree)
      × (c'.file ≡ (if c.writable then warning_line ++ saved (flat c.table.tree) else c.file))
unfolding config_save hash_next_reset pending
config_save-saved fp c w e =
    let h = hash_next_reset c.table in
    let (h', k, t) = save_items-saved (suc (length (flat c.table.tree))) h (omega arith) (
      Stored-tree c.table h (flat c.table.tree) refl
        (Stored-items c.table [] (flat c.table.tree) w refl)) in
    (
      record {
        table = h';
        file = (if c.writable then warning_line ++ saved (flat c.table.tree) else c.file);
        writable = c.writable;
      },
      rw (e, ◌>>=◌) (rw (k, ◌>>=◌) (rw (str_eq_refl fp))),
      t,
      refl,
    )
