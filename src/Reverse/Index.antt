-- ===== src/Reverse/Index.antt =====
-- module/reverse/oracle/o2m/rule.go, `GenTableKeys`: all keys and indexes of a table, in the order in
-- which they are written.
pub mod Placed
pub mod Lists
use transferdb.Prelude.{List, ◌++◌, Result, ok, err, ◌>>=◌}
use transferdb.Text.{Text}
use transferdb.Reverse.Keys.{
  UniqueKey, KeyError, Indexes, gen_table_primary_key, gen_table_unique_key,
}
use transferdb.Reverse.Keys.Unique.{UniqueIndex, gen_table_unique_index}
use transferdb.Reverse.Keys.Normal.{NormalIndex, gen_table_normal_index}

unfoldable pub gen_table_keys :
    Text
    → Text
    → Text
    → List Text
    → List UniqueKey
    → List NormalIndex
    → List UniqueIndex
    → Result KeyError Indexes
unfolding gen_table_primary_key gen_table_unique_key gen_table_normal_index gen_table_unique_index
gen_table_keys mode schema table primary unique_keys normal unique = do
  n ← gen_table_normal_index mode schema table normal
  u ← gen_table_unique_index mode schema table unique
  p ← gen_table_primary_key mode primary
  ok (record {
    indexes = p ++ gen_table_unique_key mode unique_keys ++ u.indexes ++ n.indexes;
    compatible = n.compatible ++ u.compatible;
  })
