-- ===== src/Tests/Configs.antt =====
-- src/cconfig/cconfig.c: a configuration of one parameter, written and read back.
use srepod.Prelude.{
  true, false, Option, none, some, ◌++◌, ◌≡◌, inl, inr, refl, arith, if◌then◌else◌, codes, str_eq,
  is_space,
}
use srepod.HashTable.Items.{flat}
use srepod.HashTable.Nodes.{find, store}
use srepod.HashTable.Shape.{IsHashTable, hash_new-IsHashTable, hash_add-IsHashTable}
use srepod.HashTable.{
  HashTable, hash, positive_sum, negative_sum, change, chain_of, hash_new, hash_add, hash_val,
}
use srepod.Config.Lines.{IsName, IsValue}
use srepod.Config.RoundTrip.{AllWritable, config_open-config_save}
use srepod.Config.Saved.{saved, config_save-saved}
use srepod.Config.{
  Config, is_hidden, is_skipped, config_save, config_open, config_param, warning_line,
}

abbrev or_new : Option HashTable → HashTable
or_new none = hash_new
or_new (some h) = h

abbrev opened : HashTable
opened = or_new (hash_add hash_new (codes "__FP__") (codes "0x1"))

abbrev settings : HashTable
settings = or_new (hash_add opened (codes "uid") (codes "7"))

opened-eq : hash_add hash_new (codes "__FP__") (codes "0x1") ≡ some opened
unfolding hash_new hash_add change hash positive_sum negative_sum store
opened-eq = refl

settings-eq : hash_add opened (codes "uid") (codes "7") ≡ some settings
unfolding hash_new hash_add change hash positive_sum negative_sum store str_eq
settings-eq = refl

settings-IsHashTable : IsHashTable settings
settings-IsHashTable =
    hash_add-IsHashTable opened (codes "uid") (codes "7")
      (hash_add-IsHashTable hash_new (codes "__FP__") (codes "0x1") hash_new-IsHashTable opened-eq)
      settings-eq

settings-fp : hash_val settings (codes "__FP__") ≡ some (some (codes "0x1"))
unfolding hash_new hash_add change hash positive_sum negative_sum store hash_val chain_of find
    str_eq
settings-fp = refl

abbrev config : Config
config = record { table = settings; file = codes "uid 1\n"; writable = true }

uid-IsName : IsName (codes "uid")
unfolding is_skipped is_space
uid-IsName = record { ne_nil = refl; black = (refl, (refl, (refl, tt))); plain = refl }

seven-IsValue : IsValue (codes "7")
unfolding is_space
seven-IsValue = record { one_line = (refl, tt); starts = refl }

settings-AllWritable : AllWritable (flat settings.tree)
unfolding hash_new hash_add change hash positive_sum negative_sum store str_eq flat is_hidden
settings-AllWritable = (inr (uid-IsName, seven-IsValue, omega arith), (inl refl, tt))

config_save-saved_example :
    (c' : Config) × (config_save (codes "0x1") config ≡ some c')
    × (c'.table.tree ≡ config.table.tree)
    × (c'.file
        ≡ (if config.writable then warning_line ++ saved (flat config.table.tree) else config.file))
config_save-saved_example = config_save-saved (codes "0x1") config settings-IsHashTable settings-fp

uid-hash : hash (codes "uid") ≡ some 22
unfolding hash positive_sum negative_sum
uid-hash = refl

uid-shown : is_hidden (codes "uid") ≡ false
unfolding is_hidden
uid-shown = refl

config_open-config_save_example :
    (written : Config) × (config_save (codes "0x1") config ≡ some written)
    × (c' : Config) × (config_open (codes "0x2") (codes "srepod.conf") written.file false ≡ some c')
    × (config_param c' (codes "uid") ≡ config_param config (codes "uid"))
config_open-config_save_example =
    config_open-config_save (codes "0x1") (codes "0x2") (codes "srepod.conf") (codes "uid") false
      config settings-IsHashTable settings-fp refl settings-AllWritable uid-shown uid-hash
