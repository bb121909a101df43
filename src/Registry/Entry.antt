-- ===== src/Registry/Entry.antt =====
-- src/registry/registry.c: an entry that has been added to the configuration of the gateway is found by
-- the registry.
use mathlib.Core.Path.{subst}
use srepod.Config.{
  Config, config_open, config_line, config_lines, config_param, config_param_add, config_param_del,
  config_save, scan_pair, is_skipped, is_hidden,
}
use srepod.Config.RoundTrip.{AllWritable, config_open-config_save}
use srepod.HashTable.{HashTable, hash, hash_new, hash_add, hash_del, hash_val}
use srepod.HashTable.Items.{flat}
use srepod.HashTable.Lookup.{hash_val-hash_add}
use srepod.HashTable.Shape.{
  IsHashTable, hash_new-IsHashTable, hash_add-IsHashTable, hash_del-IsHashTable, hash_val-hash_del,
}
use srepod.Prelude.{
  ℕ, true, false, not, Option, none, some, List, [], ◌∷◌, ◌≡◌, ◌∙◌, refl, arith, ◌>>=◌, >>=-eq-some,
  inl, inr, Option-cases, Bool-cases, if◌then◌else◌, is_nil, fgets_from, CString, codes, length,
  str_eq, str_eq_iff, starts_with, subst-some,
}
use srepod.Registry.{substr, dbexists}
use srepod.Registry.Requests.{or_empty}
use srepod.Registry.Store.{Site, add_entry}
use srepod.Registry.Unregister.{del_entry}

config_line-IsHashTable :
    (h h' : HashTable) (line : CString)
    → IsHashTable h
    → config_line h line ≡ some h'
    → IsHashTable h'
unfolding config_line
config_line-IsHashTable h h' line w e = elim (Bool-cases (is_skipped line)) [
  | inl s ↦ let q : h ≡ h' = ground (arith, s, e) in subst IsHashTable q w
  | inr s ↦ elim (Option-cases (scan_pair line)) [
    | inl n ↦ let q : h ≡ h' = ground (arith, s, n, e) in subst IsHashTable q w
    | inr ((name, value), n) ↦ hash_add-IsHashTable h name value w (rw (s, config_line, n) at e)
  ]
]

config_lines-IsHashTable :
    (lines : List CString) (h h' : HashTable)
    → IsHashTable h
    → config_lines h lines ≡ some h'
    → IsHashTable h'
unfolding config_lines
config_lines-IsHashTable [] h h' w e = let q : h ≡ h' = ground arith in subst IsHashTable q w
config_lines-IsHashTable (line ∷ lines) h h' w e =
    let (h₁, a, k) = >>=-eq-some (config_line h line) _ e in
    config_lines-IsHashTable lines h₁ h' (config_line-IsHashTable h h₁ line w a) k

-- A configuration that has just been opened for writing.
record IsOpen (fp : CString) (c : Config) : Type 0 where
  shape : IsHashTable c.table
  pointer : hash_val c.table (codes "__FP__") ≡ some (some fp)
  writable : c.writable ≡ true

config_open-IsOpen :
    (fp filename file : CString) (c : Config)
    → config_open fp filename file true ≡ some c
    → IsOpen fp c
unfolding config_open str_eq
config_open-IsOpen fp filename file c e =
    let (h₁, a₁, k₁) = >>=-eq-some (config_lines hash_new (fgets_from 1023 1023 [] file)) _ e in
    let (h₂, a₂, k₂) = >>=-eq-some (hash_add h₁ (codes "__FP__") fp) _ k₁ in
    let (h₃, a₃, k₃) = >>=-eq-some (hash_add h₂ (codes "__FILENAME__") filename) _ k₂ in
    let (h₄, a₄, k₄) = >>=-eq-some (hash_add h₃ (codes "__FILEMODE__") (codes "READ_WRITE")) _ k₃ in
    let w₁ =
      config_lines-IsHashTable (fgets_from 1023 1023 [] file) hash_new h₁ hash_new-IsHashTable a₁ in
    let w₂ = hash_add-IsHashTable h₁ (codes "__FP__") fp w₁ a₂ in
    let w₃ = hash_add-IsHashTable h₂ (codes "__FILENAME__") filename w₂ a₃ in
    let w₄ = hash_add-IsHashTable h₃ (codes "__FILEMODE__") (codes "READ_WRITE") w₃ a₄ in
    let p : hash_val h₄ (codes "__FP__") ≡ some (some fp) =
      hash_val-hash_add h₃ (codes "__FILEMODE__") (codes "READ_WRITE") (codes "__FP__") a₄
      ∙ hash_val-hash_add h₂ (codes "__FILENAME__") filename (codes "__FP__") a₃
      ∙ hash_val-hash_add h₁ (codes "__FP__") fp (codes "__FP__") a₂ in
    subst-some (IsOpen fp) k₄ (record { shape = w₄; pointer = p; writable = refl })

-- What the handle `c` holds under one name has been set to `value`, or taken out, which makes it `c'`.
record IsChanged (c c' : Config) (frag : CString) (value : Option CString) : Type 0 where
  shape : IsHashTable c'.table
  writable : c'.writable ≡ c.writable
  values :
      (q : CString)
      → hash_val c'.table q ≡ (if str_eq frag q then some value else hash_val c.table q)

config_param_add-IsChanged :
    (c c' : Config) (frag db : CString)
    → IsHashTable c.table
    → config_param_add c frag db ≡ some c'
    → IsChanged c c' frag (some db)
unfolding config_param_add
config_param_add-IsChanged c c' frag db w e =
    let (h, a, k) = >>=-eq-some (hash_add c.table frag db) _ e in
    subst-some (λ x. IsChanged c x frag (some db)) k
      (record {
        shape = hash_add-IsHashTable c.table frag db w a;
        writable = refl;
        values = λ q. hash_val-hash_add c.table frag db q a;
      })

config_param_del-IsChanged :
    (c c' : Config) (frag : CString)
    → IsHashTable c.table
    → config_param_del c frag ≡ some c'
    → IsChanged c c' frag none
unfolding config_param_del
config_param_del-IsChanged c c' frag w e =
    let (h, a, k) = >>=-eq-some (hash_del c.table frag) _ e in
    subst-some (λ x. IsChanged c x frag none) k
      (record {
        shape = hash_del-IsHashTable c.table frag w a;
        writable = refl;
        values = λ q. hash_val-hash_del c.table frag q w a;
      })

config_param-changed :
    (c c' : Config) (frag q : CString) (value : Option CString)
    → IsChanged c c' frag value
    → config_param c' q ≡ (if str_eq frag q then some (or_empty value) else config_param c q)
unfolding config_param
config_param-changed c c' frag q value k = rw (k.values q) (elim (Bool-cases (str_eq frag q)) [
  | inl s ↦ rw s (elim (Option-cases value) [ inl n ↦ rw n refl | inr (v, n) ↦ rw n refl ])
  | inr s ↦ rw s refl
])

-- The name `__FP__` is not that of an entry.
own_name-ne : (n : CString) → is_hidden n ≡ false → str_eq n (codes "__FP__") ≡ false
unfolding is_hidden starts_with
own_name-ne n h = elim (Bool-cases (str_eq n (codes "__FP__"))) [
  | inl e ↦
      let q : n ≡ codes "__FP__" = (str_eq_iff n (codes "__FP__")).0 e in
      absurd (let z = rw q at h in ground arith)
  | inr e ↦ e
]

-- A handle that has been opened for writing, and then changed at the entry `frag`, is saved.
module _ (site : Site) (gwdbconf file frag : CString) (value : Option CString) {c c' : Config}
    (opened : config_open site.fp gwdbconf file true ≡ some c) (changed : IsChanged c c' frag value)
    (fits : AllWritable (flat c'.table.tree)) (plain : is_hidden frag ≡ false) where
  changed-pointer : hash_val c'.table (codes "__FP__") ≡ some (some site.fp)
  changed-pointer =
      changed.values (codes "__FP__")
      ∙ rw (own_name-ne frag plain) (config_open-IsOpen site.fp gwdbconf file c opened).pointer

  -- Any parameter that is not the module's own is read back from the file as it was in memory.
  changed-param :
      (fp' q : CString) {j : ℕ}
      → is_hidden q ≡ false
      → hash q ≡ some j
      → (saved : Config) × (config_save site.fp c' ≡ some saved)
        × (c'' : Config) × (config_open fp' gwdbconf saved.file false ≡ some c'')
        × (config_param c'' q ≡ (if str_eq frag q then some (or_empty value) else config_param c q))
  changed-param fp' q n e =
      let o = config_open-IsOpen site.fp gwdbconf file c opened in
      let (saved, s, c'', r, v) =
        config_open-config_save site.fp fp' gwdbconf q false c' changed.shape changed-pointer
          (changed.writable ∙ o.writable) fits n e in
      (saved, s, c'', r, v ∙ config_param-changed c c' frag q value changed)

  changed-dbexists :
      (behind : List ℕ) (fp' url q : CString) {j : ℕ}
      → substr behind url 6 (length url) ≡ some q
      → is_hidden q ≡ false
      → hash q ≡ some j
      → (saved : Config) × (config_save site.fp c' ≡ some saved)
        × (dbexists behind fp' gwdbconf saved.file url ≡ (
            if str_eq frag q
            then some (not (is_nil (or_empty value)))
            else (config_param c q >>= (λ v. some (not (is_nil v))))))
  unfolding dbexists
  changed-dbexists behind fp' url q s n e =
      let (saved, t, c'', r, v) = changed-param fp' q n e in
      (
        saved,
        t,
        rw (s, ◌>>=◌)
            (rw (r, ◌>>=◌)
              (rw v (elim (Bool-cases (str_eq frag q)) [ inl k ↦ rw k refl | inr k ↦ rw k refl ]))),
      )

module _ (site : Site) (gwdbconf file frag : CString) {c c' : Config}
    (opened : config_open site.fp gwdbconf file true ≡ some c)
    (fits : AllWritable (flat c'.table.tree)) (plain : is_hidden frag ≡ false) (behind : List ℕ)
    (fp' url q : CString) {j : ℕ} (path : substr behind url 6 (length url) ≡ some q)
    (named : is_hidden q ≡ false) (hashed : hash q ≡ some j) where
  -- Where the configuration can be opened for writing, the entry for the path of a url is added to it,
  -- and all items fit on lines, the file is written. In a file with this content dbexists finds every
  -- url whose path is that of the entry, and any other url if and only if it was found in the
  -- configuration before. The paths are not names of the module's own, that of the url has a hash
  -- value, and the name of the database is not empty.
  pub add_entry-dbexists :
      (db : CString)
      → config_param_add c frag db ≡ some c'
      → is_nil db ≡ false
      → (text : CString) × (add_entry site c frag db ≡ some text)
        × (dbexists behind fp' gwdbconf text url ≡ (
            if str_eq frag q
            then some true
            else (config_param c q >>= (λ v. some (not (is_nil v))))))
  unfolding add_entry
  add_entry-dbexists db added l =
      let o = config_open-IsOpen site.fp gwdbconf file c opened in
      let (saved, s, e) =
        changed-dbexists site gwdbconf file frag (some db) opened
          (config_param_add-IsChanged c c' frag db o.shape added) fits plain behind fp' url q path
          named hashed in
      (saved.file, rw (added, ◌>>=◌) (rw (s, ◌>>=◌) refl), rw l at e)

  -- Where the configuration can be opened for writing, the entry for the path of a url is taken out of
  -- it, and all items that stay fit on lines, the file is written. In a file with this content
  -- dbexists finds no url whose path is that of the entry, and any other url if and only if it was
  -- found in the configuration before. The paths are not names of the module's own, and that of the
  -- url has a hash value.
  pub del_entry-dbexists :
      config_param_del c frag ≡ some c'
      → (text : CString) × (del_entry site c frag ≡ some text)
        × (dbexists behind fp' gwdbconf text url ≡ (
            if str_eq frag q
            then some false
            else (config_param c q >>= (λ v. some (not (is_nil v))))))
  unfolding del_entry
  del_entry-dbexists deleted =
      let o = config_open-IsOpen site.fp gwdbconf file c opened in
      let (saved, s, e) =
        changed-dbexists site gwdbconf file frag none opened
          (config_param_del-IsChanged c c' frag o.shape deleted) fits plain behind fp' url q path
          named hashed in
      (saved.file, rw (deleted, ◌>>=◌) (rw (s, ◌>>=◌) refl), e)
