-- ===== src/Tests/Prefixes.antt =====
-- Tests of the first and the last words of a CREATE TABLE, and the theorem on its collation.
use transferdb.Prelude.{String, true, false, [], ok, err, Bool, ◌∷◌, ◌⊎◌, ◌≡◌, refl}
use transferdb.Text.{Text, codes, text_eq, to_lower, to_upper, equal_fold, strings_builder}
use transferdb.Dict.{get}
use transferdb.Reverse.Prefix.{
  Collations, cased, gen_schema_name, gen_table_name, table_prefix, gen_table_suffix, table_charset,
  table_collation, collation_of, table_collation_unsupported,
  migrate_table_structure_database_charset_map, migrate_table_structure_database_collation_map,
}
use transferdb.Reverse.Prefix.Inherited.{IsKnown, suffix_priority}

-- the setting that keeps names gives none
origin_names :
    table_prefix
      (gen_schema_name (codes "0") (codes "HR") (codes "staff"))
      (gen_table_name (codes "0") (codes "EMP") [])
    ≡ codes "CREATE TABLE ``.``"
unfolding table_prefix gen_schema_name gen_table_name cased equal_fold text_eq to_lower to_upper
    strings_builder
origin_names = refl

lower_names :
    table_prefix
      (gen_schema_name (codes "1") (codes "HR") (codes "Staff"))
      (gen_table_name (codes "1") (codes "EMP") [])
    ≡ codes "CREATE TABLE `staff`.`emp`"
unfolding table_prefix gen_schema_name gen_table_name cased equal_fold text_eq to_lower to_upper
    strings_builder
lower_names = refl

-- the setting for upper case keeps the names
upper_names : gen_schema_name (codes "2") (codes "hr") (codes "Staff") ≡ codes "Staff"
unfolding gen_schema_name cased equal_fold text_eq to_upper
upper_names = refl

abbrev emp_collations : Bool → String → String → Collations
emp_collations own table schema = record {
  oracle_collation = own;
  source_db_charset = codes "ZHS16GBK";
  source_table_name = codes "EMP";
  source_table_collation = codes table;
  source_schema_collation = codes schema;
  source_db_nls_comp = codes "BINARY";
  source_db_nls_sort = codes "BINARY";
}

table_suffix :
    gen_table_suffix (emp_collations true "BINARY_CI" "BINARY")
    ≡ ok (codes "ENGINE=InnoDB DEFAULT CHARSET=GBK COLLATE=GBK_CHINESE_CI")
unfolding gen_table_suffix table_collation collation_of get text_eq strings_builder
    migrate_table_structure_database_charset_map migrate_table_structure_database_collation_map
table_suffix = refl

schema_suffix :
    gen_table_suffix (emp_collations true "" "BINARY")
    ≡ ok (codes "ENGINE=InnoDB DEFAULT CHARSET=GBK COLLATE=GBK_BIN")
unfolding gen_table_suffix table_collation collation_of get text_eq strings_builder
    migrate_table_structure_database_charset_map migrate_table_structure_database_collation_map
schema_suffix = refl

binary_ci-HasText : text_eq (codes "BINARY_CI") [] ≡ false
unfolding text_eq
binary_ci-HasText = refl

suffix_priority_example :
    let r = emp_collations true "BINARY_CI" "BINARY" in
    ((t : Text) × IsKnown (codes "BINARY_CI") (table_charset r) t
      × (gen_table_suffix r
          ≡ ok (
              strings_builder (
                codes "ENGINE=InnoDB DEFAULT CHARSET="
                ∷ table_charset r
                ∷ codes " COLLATE="
                ∷ t
                ∷ []))))
    ⊎ ((t : Text) → ¬ IsKnown (codes "BINARY_CI") (table_charset r) t)
      × (gen_table_suffix r ≡ err (table_collation_unsupported (codes "BINARY_CI")))
unfolding text_eq
suffix_priority_example =
    suffix_priority (emp_collations true "BINARY_CI" "BINARY") refl refl binary_ci-HasText

-- no collation at all
empty_suffix :
    gen_table_suffix (emp_collations true "" "")
    ≡ ok (codes "ENGINE=InnoDB DEFAULT CHARSET=GBK COLLATE=")
unfolding gen_table_suffix table_collation collation_of get text_eq strings_builder
    migrate_table_structure_database_charset_map migrate_table_structure_database_collation_map
empty_suffix = refl

database_suffix :
    gen_table_suffix (emp_collations false "" "")
    ≡ ok (codes "ENGINE=InnoDB DEFAULT CHARSET=GBK COLLATE=GBK_BIN")
unfolding gen_table_suffix table_collation collation_of get text_eq strings_builder
    migrate_table_structure_database_charset_map migrate_table_structure_database_collation_map
database_suffix = refl

unknown_collation :
    gen_table_suffix (emp_collations true "XSPANISH" "")
    ≡ err (table_collation_unsupported (codes "XSPANISH"))
unfolding gen_table_suffix table_collation collation_of get text_eq strings_builder
    migrate_table_structure_database_charset_map migrate_table_structure_database_collation_map
unknown_collation = refl
