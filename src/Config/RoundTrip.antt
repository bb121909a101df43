-- ===== src/Config/RoundTrip.antt =====
-- src/cconfig/cconfig.c: what `config_save` writes, `config_open` reads back.
use srepod.Prelude.{
  ℕ, ◌≤◌, ◌<◌, Bool, true, false, Option, none, some, [], ◌∷◌, ◌++◌, if◌then◌else◌, ◌>>=◌, arith,
  refl, ◌≡◌, ◌⊎◌, ◌∙◌, ap, sym, inl, inr, CString, codes, str_eq, str_eq_iff, length, append_assoc,
  fgets_from, Bool-cases,
}
use srepod.HashTable.Nodes.{Item, Chain, find, count, count-append, find-eq-none}
use srepod.HashTable.Items.{flat, hash_val-find, count-items-le, count-items-hash}
use srepod.HashTable.Lookup.{hash_val-hash_add, hash_val-hash_new}
use srepod.HashTable.Shape.{IsHashTable, hash_new-IsHashTable, hash_ops_total, hash_add-IsHashTable}
use srepod.HashTable.{HashTable, hash, positive_sum, negative_sum, hash_val, hash_add, hash_new}
use srepod.Config.Lines.{
  IsName, IsValue, scan_pair-saved_line, is_skipped-saved_line, fgets-saved_line, fgets_line,
  in_line, AllIn, all_in-AllIn,
}
use srepod.Config.Saved.{saved, count_self, config_save-saved}
use srepod.Config.{
  Config, buff_size, saved_line, is_hidden, config_save, config_open, config_param, config_lines,
  config_line, warning_line, is_skipped,
}

-- The items that are not the module's own can be written on one line each.
abbrev pub AllWritable : Chain → Type 0
AllWritable [] = Unit
AllWritable (e ∷ c) =
    ((is_hidden e.name ≡ true)
      ⊎ IsName e.name × IsValue e.def × (length (saved_line e.name e.def) < buff_size))
    × AllWritable c

-- Every item has a hash value.
abbrev AllHashed : Chain → Type 0
AllHashed [] = Unit
AllHashed (e ∷ c) = ((i : ℕ) × (hash e.name ≡ some i)) × AllHashed c

-- What is found once the items that are not hidden have been added in turn.
abbrev found : CString → Chain → Option CString → Option CString
found q [] v = v
found q (e ∷ c) v =
    found q c (if is_hidden e.name then v else if str_eq e.name q then some e.def else v)

line_read :
    (h : HashTable) (e : Item) (rest : CString)
    → IsHashTable h
    → IsName e.name
    → IsValue e.def
    → length (saved_line e.name e.def) < buff_size
    → (i : ℕ) × (hash e.name ≡ some i)
    → (h' : HashTable) × (hash_add h e.name e.def ≡ some h')
      × (config_lines h (fgets_from 1023 1023 [] (saved_line e.name e.def ++ rest))
          ≡ config_lines h' (fgets_from 1023 1023 [] rest))
unfolding config_lines config_line
line_read h e rest w n v l (i, k) =
    let (h', a) = (hash_ops_total h e.name e.def w k).0 in
    (
      h',
      a,
      rw (fgets-saved_line 1023 e.name e.def rest n v (omega arith))
          (rw (is_skipped-saved_line e.name e.def n, scan_pair-saved_line e.name e.def n v l, a)),
    )

if_some :
    (b : Bool) (x : Option CString) {o : Option (Option CString)} {u : Option CString}
    → o ≡ some u
    → (if b then some x else o) ≡ some (if b then x else u)
if_some b x e = ground arith

writable_item :
    (e : Item)
    → (is_hidden e.name ≡ true)
      ⊎ IsName e.name × IsValue e.def × (length (saved_line e.name e.def) < buff_size)
    → is_hidden e.name ≡ false
    → IsName e.name × IsValue e.def × (length (saved_line e.name e.def) < buff_size)
writable_item e (inl h) o = absurd (ground arith)
writable_item e (inr w) o = w

-- Where the lines of a chain of items have been read.
record LinesRead (h : HashTable) (c : Chain) : Type 0 where
  after : HashTable
  shape : IsHashTable after
  reads : config_lines h (fgets_from 1023 1023 [] (saved c)) ≡ some after
  finds :
      (q : CString) (v : Option CString)
      → hash_val h q ≡ some v
      → hash_val after q ≡ some (found q c v)

lines_read :
    (h : HashTable) (c : Chain) → IsHashTable h → AllWritable c → AllHashed c → LinesRead h c
unfolding config_lines
lines_read h [] w a k = record {
  after = h;
  shape = w;
  reads = unfold fgets_from in refl;
  finds = λ q v e. e;
}
lines_read h (e ∷ c) w a k = elim (Bool-cases (is_hidden e.name)) [
  | inl hid ↦
      let r = lines_read h c w a.1 k.1 in
      record {
        after = r.after;
        shape = r.shape;
        reads = rw hid r.reads;
        finds = λ q v p. rw hid (r.finds q v p);
      }
  | inr own ↦
      let (n, v, l) = writable_item e a.0 own in
      let (h', p, s) = line_read h e (saved c) w n v l k.0 in
      let r = lines_read h' c (hash_add-IsHashTable h e.name e.def w p) a.1 k.1 in
      record {
        after = r.after;
        shape = r.shape;
        reads = rw own (s ∙ r.reads);
        finds = λ q u o. rw own (
            r.finds q _
              (hash_val-hash_add h e.name e.def q p ∙ if_some (str_eq e.name q) (some e.def) o));
      }
]

abbrev or_else : Option CString → Option CString → Option CString
or_else none v = v
or_else (some d) v = some d

-- Of a name that stands once, the last value is the first.
found-find :
    (q : CString) (c : Chain) (v : Option CString)
    → is_hidden q ≡ false
    → count q c ≤ 1
    → found q c v ≡ or_else (find q c) v
unfolding find count
found-find q [] v n l = refl
found-find q (e ∷ c) v n l = ground (
  arith,
  str_eq_iff q e.name,
  str_eq_iff e.name q,
  find-eq-none q c,
  found-find q c v,
  found-find q c (some e.def),
)

AllHashed-items : (h : HashTable) (c d : Chain) → IsHashTable h → flat h.tree ≡ c ++ d → AllHashed d
AllHashed-items h c [] w e = tt
AllHashed-items h c (i ∷ d) w e = (
  count-items-hash h i.name w (rw e (omega (arith, count-append i.name c (i ∷ d), count_self i d))),
  AllHashed-items h (c ++ i ∷ []) d w (e ∙ sym (append_assoc c (i ∷ []) d)),
)

-- A name that the module keeps for itself is added, and no other name is touched.
own_add :
    (h : HashTable) (own def : CString) {i : ℕ}
    → IsHashTable h
    → hash own ≡ some i
    → is_hidden own ≡ true
    → (h' : HashTable) × (hash_add h own def ≡ some h')
      × IsHashTable h'
      × ((q : CString) → is_hidden q ≡ false → hash_val h' q ≡ hash_val h q)
own_add h own def w k n =
    let (h', a) = (hash_ops_total h own def w k).0 in
    (
      h',
      a,
      hash_add-IsHashTable h own def w a,
      λ q m. hash_val-hash_add h own def q a ∙ ground (arith, str_eq_iff own q),
    )

warning_read :
    (h : HashTable) (rest : CString)
    → config_lines h (fgets_from 1023 1023 [] (warning_line ++ rest))
      ≡ config_lines h (fgets_from 1023 1023 [] rest)
unfolding config_lines config_line is_skipped
warning_read h rest =
    let text = codes "# DO NOT EDIT THIS FILE MANUALLY!" in
    let plain : AllIn in_line text = all_in-AllIn in_line text refl in
    rw (fgets_line 1023 1023 [] text rest plain (omega arith)) refl

config_open-eq :
    (fp filename file : CString) (writable : Bool) {h₁ h₂ h₃ h₄ : HashTable}
    → config_lines hash_new (fgets_from 1023 1023 [] file) ≡ some h₁
    → hash_add h₁ (codes "__FP__") fp ≡ some h₂
    → hash_add h₂ (codes "__FILENAME__") filename ≡ some h₃
    → hash_add h₃ (codes "__FILEMODE__") (if writable then codes "READ_WRITE" else codes "READ")
      ≡ some h₄
    → config_open fp filename file writable
      ≡ some (record { table = h₄; file = file; writable = writable })
unfolding config_open
config_open-eq fp filename file writable e₁ e₂ e₃ e₄ =
    rw (e₁, ◌>>=◌) (rw (e₂, ◌>>=◌) (rw (e₃, ◌>>=◌) (rw (e₄, ◌>>=◌))))

or_else-none : (o : Option CString) → or_else o none ≡ o
or_else-none none = refl
or_else-none (some d) = refl

config_param_congr :
    (c c' : Config) (q : CString)
    → hash_val c.table q ≡ hash_val c'.table q
    → config_param c q ≡ config_param c' q
unfolding config_param
config_param_congr c c' q e = rw e

open_saved :
    (fp filename : CString) (writable : Bool) (c : Chain)
    → AllWritable c
    → AllHashed c
    → (c' : Config) × (config_open fp filename (warning_line ++ saved c) writable ≡ some c')
      × ((q : CString) (i : ℕ)
          → is_hidden q ≡ false
          → count q c ≤ 1
          → hash q ≡ some i
          → hash_val c'.table q ≡ some (find q c))
unfolding hash positive_sum negative_sum is_hidden
open_saved fp filename writable c a k =
    let r = lines_read hash_new c hash_new-IsHashTable a k in
    let (h₂, a₂, w₂, f₂) = own_add r.after (codes "__FP__") fp r.shape refl refl in
    let (h₃, a₃, w₃, f₃) = own_add h₂ (codes "__FILENAME__") filename w₂ refl refl in
    let mode : CString = if writable then codes "READ_WRITE" else codes "READ" in
    let (h₄, a₄, w₄, f₄) = own_add h₃ (codes "__FILEMODE__") mode w₃ refl refl in
    let file : CString = warning_line ++ saved c in
    (
      record { table = h₄; file = file; writable = writable },
      config_open-eq fp filename file writable (warning_read hash_new (saved c) ∙ r.reads) a₂ a₃ a₄,
      λ q i n l e.
          f₄ q n
          ∙ f₃ q n
          ∙ f₂ q n
          ∙ r.finds q none (hash_val-hash_new q e)
          ∙ ap some (found-find q c none n l ∙ or_else-none (find q c)),
    )

-- A configuration whose table has the right shape and the pointer of its file, which is open for
-- writing, and whose items fit on lines, is written by `config_save` and read back by `config_open`,
-- whatever the file pointer, the file name and the mode then are. A parameter that has a hash value
-- and is not the module's own then has the value, or the absence, that it had.
pub config_open-config_save :
    (fp fp' filename q : CString) (writable : Bool) (c : Config) {i : ℕ}
    → IsHashTable c.table
    → hash_val c.table (codes "__FP__") ≡ some (some fp)
    → c.writable ≡ true
    → AllWritable (flat c.table.tree)
    → is_hidden q ≡ false
    → hash q ≡ some i
    → (saved : Config) × (config_save fp c ≡ some saved)
      × (c' : Config) × (config_open fp' filename saved.file writable ≡ some c')
      × (config_param c' q ≡ config_param c q)
config_open-config_save fp fp' filename q writable c {i} w p m a n k =
    let items = flat c.table.tree in
    let (s, e, t, f) = config_save-saved fp c w p in
    let (c', o, v) =
      open_saved fp' filename writable items a (AllHashed-items c.table [] items w refl) in
    (
      s,
      e,
      c',
      rw (f, m) o,
      config_param_congr c' c q
          (v q i n (count-items-le c.table q w) k ∙ sym (hash_val-find c.table q w k)),
    )
