-- ===== src/Check/Struct.antt =====
-- module/check/oracle/public/column.go: the structure of a table, and the equality of its parts, which Go
-- derives from their fields.
use transferdb.Prelude.{Bool, ◌&&◌, List, Option}
use transferdb.Text.{Text, text_eq}

pub record ConstraintPuKey : Type 0 where
  pub constraint_type : Text
  pub constraint_column : Text

pub record ConstraintForeign : Type 0 where
  pub column_name : Text
  pub referenced_table_schema : Text
  pub referenced_table_name : Text
  pub referenced_column_name : Text
  pub delete_rule : Text
  pub update_rule : Text

pub record ConstraintCheck : Type 0 where
  pub constraint_expression : Text

pub record Index : Type 0 where
  pub uniqueness : Text
  pub index_column : Text
  pub index_name : Text
  pub index_type : Text
  pub domain_index_owner : Text
  pub domain_index_name : Text
  pub domain_parameters : Text

pub record Partition : Type 0 where
  pub partition_key : Text
  pub partition_type : Text
  pub sub_partition_key : Text
  pub sub_partition_type : Text

-- a table of a database, without its columns
pub record Table : Type 0 where
  pub schema_name : Text
  pub table_name : Text
  pub table_comment : Text
  pub table_character_set : Text
  pub table_collation : Text
  pub is_partition : Bool
  pub indexes : Option (List Index)
  pub pu_constraints : Option (List ConstraintPuKey)
  pub foreign_constraints : Option (List ConstraintForeign)
  pub check_constraints : Option (List ConstraintCheck)
  pub partitions : Option (List Partition)

pub record Diff : Type 0 where
  pub oracle_table_info : Table
  pub my_sql_table_info : Table
  pub my_sql_db_version : Text

pub data CheckError : Type 0 where
  key_type_unsupported : Text → CheckError
  index_unsupported : Index → CheckError

unfoldable pub pu_eq : ConstraintPuKey → ConstraintPuKey → Bool
unfolding text_eq
pu_eq a b =
    text_eq a.constraint_type b.constraint_type && text_eq a.constraint_column b.constraint_column

unfoldable pub foreign_eq : ConstraintForeign → ConstraintForeign → Bool
unfolding text_eq
foreign_eq a b =
    text_eq a.column_name b.column_name
    && text_eq a.referenced_table_schema b.referenced_table_schema
    && text_eq a.referenced_table_name b.referenced_table_name
    && text_eq a.referenced_column_name b.referenced_column_name
    && text_eq a.delete_rule b.delete_rule
    && text_eq a.update_rule b.update_rule

unfoldable pub check_eq : ConstraintCheck → ConstraintCheck → Bool
unfolding text_eq
check_eq a b = text_eq a.constraint_expression b.constraint_expression

-- the equality of the two fields of `IndexInfo`
unfoldable pub info_eq : Index → Index → Bool
unfolding text_eq
info_eq a b = text_eq a.uniqueness b.uniqueness && text_eq a.index_column b.index_column

unfoldable pub index_eq : Index → Index → Bool
unfolding info_eq text_eq
index_eq a b =
    info_eq a b
    && text_eq a.index_name b.index_name
    && text_eq a.index_type b.index_type
    && text_eq a.domain_index_owner b.domain_index_owner
    && text_eq a.domain_index_name b.domain_index_name
    && text_eq a.domain_parameters b.domain_parameters

unfoldable pub partition_eq : Partition → Partition → Bool
unfolding text_eq
partition_eq a b =
    text_eq a.partition_key b.partition_key
    && text_eq a.partition_type b.partition_type
    && text_eq a.sub_partition_key b.sub_partition_key
    && text_eq a.sub_partition_type b.sub_partition_type
