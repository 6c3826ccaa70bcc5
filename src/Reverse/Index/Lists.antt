-- ===== src/Reverse/Index/Lists.antt =====
-- Which indexes of a table become keys, and which are left to a user.
use transferdb.Prelude.{
  ◌≤◌, true, List, [], ◌∷◌, ◌++◌, map, All, length, filter, ok, ◌≡◌, refl, ap, arith,
}
use mathlib.Core.List.{filter_map}
use transferdb.Text.{Text}
use transferdb.Reverse.Keys.{
  UniqueKey, primary_text, unique_key_text, gen_table_primary_key, gen_table_unique_key,
}
use transferdb.Reverse.Keys.Unique.{UniqueIndex, unique_text, unique_statement}
use transferdb.Reverse.Keys.Normal.{NormalIndex, key_index, normal_statement}
use transferdb.Reverse.Index.{gen_table_keys}
use transferdb.Reverse.Index.Placed.{
  is_of, is_unique_row, is_normal_row, unique_lists, normal_lists,
}

primary_keys :
    (mode : Text) (ks : List Text)
    → length ks ≤ 1
    → gen_table_primary_key mode ks ≡ ok (map (primary_text mode) ks)
unfolding gen_table_primary_key
primary_keys mode [] _ = refl
primary_keys mode (k ∷ []) _ = refl
primary_keys mode (k ∷ l ∷ ks) h = absurd (omega (arith, h))

unique_keys-map :
    (mode : Text) (ks : List UniqueKey)
    → gen_table_unique_key mode ks ≡ map (unique_key_text mode) ks
unfolding gen_table_unique_key
unique_keys-map mode [] = refl
unique_keys-map mode (k ∷ ks) = ap (λ t. unique_key_text mode k ∷ t) (unique_keys-map mode ks)

module _ (mode schema table : Text) where
  -- For at most one primary key, and indexes of the types that the code knows, the keys of a table are
  -- its primary key, its unique keys, its unique indexes of type NORMAL and its other indexes of that
  -- type, each from its own row and in the order of the rows. The indexes of all other types are left
  -- to a user as statements, the ones that are not unique first.
  pub gen_table_keys-lists :
      (primary : List Text) (unique_keys : List UniqueKey) (normal : List NormalIndex)
      (unique : List UniqueIndex)
      → length primary ≤ 1
      → All (λ i. is_normal_row i ≡ true) normal
      → All (λ i. is_unique_row i ≡ true) unique
      → gen_table_keys mode schema table primary unique_keys normal unique
        ≡ ok (record {
          indexes =
              map (primary_text mode) primary
              ++ map (unique_key_text mode) unique_keys
              ++ map (unique_text mode) (filter (λ i. is_of i.index_type "NORMAL") unique)
              ++ map (key_index mode) (filter (λ i. is_of i.index_type "NORMAL") normal);
          compatible =
              filter_map (normal_statement mode schema table) normal
              ++ filter_map (unique_statement mode schema table) unique;
        })
  unfolding gen_table_keys
  gen_table_keys-lists primary unique_keys normal unique h hn hu =
      rw
        (
          normal_lists mode schema table normal hn,
          unique_lists mode schema table unique hu,
          primary_keys mode primary h,
          unique_keys-map mode unique_keys,
        )
        refl
