-- ===== src/Reverse/Tables.antt =====
-- module/reverse/oracle/public/filter.go: which tables of the source schema are exported. The answers
-- of Oracle are arguments, a failed query is no answer; package regexp and the sets are parameters.
pub mod Selection
pub mod Views
use transferdb.Prelude.{
  Bool, true, false, List, [], ◌∷◌, Option, none, some, filter, if◌then◌else◌, Result, ok, err,
  panic, ◌>>=◌,
}
use transferdb.Text.{Text, to_upper}
use transferdb.Common.Sets.{
  is_contain_string, filter_difference_string_items, filter_intersection_string_items,
}
use transferdb.Filter.Parser.{FilterError}
use transferdb.Filter.{Matcher, parse, match_table}

pub data TableError : Type 0 where
  query_failed : TableError
  no_schema : TableError
  include_and_exclude : TableError
  no_tables : TableError

-- the fields of `cfg.SchemaConfig`
pub record SchemaConfig : Type 0 where
  pub source_schema : Text
  pub source_include_table : List Text
  pub source_exclude_table : List Text

pub record Compatible : Type 0 where
  pub partition_tables : List Text
  pub temporary_tables : List Text
  pub clustered_tables : List Text
  pub materialized_view : List Text
  pub exporter_tables : List Text

abbrev pub answer : Option (List Text) → Result TableError (List Text)
answer none = err query_failed
answer (some xs) = ok xs

-- an illegal pattern panics
abbrev pub or_panic : Result FilterError (List Matcher) → Result TableError (List Matcher)
or_panic (ok f) = ok f
or_panic (err e) = panic
or_panic panic = panic

abbrev pub not_empty : List Text → Result TableError (List Text)
not_empty [] = err no_tables
not_empty (t ∷ ts) = ok (t ∷ ts)

module _ (compiles : Text → Bool) (matches : Text → Text → Bool)
    (difference : List Text → List Text → List Text) where
  -- the switch on the two lists of patterns
  unfoldable pub chosen_tables : List Text → List Text → List Text → Result TableError (List Text)
  chosen_tables [] [] tables = ok tables
  chosen_tables (p ∷ ps) [] tables = do
    f ← or_panic (parse compiles (p ∷ ps))
    ok (filter (match_table matches f) tables)
  chosen_tables [] (p ∷ ps) tables = do
    f ← or_panic (parse compiles (p ∷ ps))
    ok (filter_difference_string_items difference tables (filter (match_table matches f) tables))
  chosen_tables (p ∷ ps) (q ∷ qs) tables = err include_and_exclude

  -- `FilterCFGTable`
  unfoldable pub filter_cfg_table :
      SchemaConfig → Option (List Text) → Option (List Text) → Result TableError (List Text)
  unfolding chosen_tables
  filter_cfg_table cfg schemas tables = do
    all_schemas ← answer schemas
    if is_contain_string all_schemas (to_upper cfg.source_schema)
        then (do
          all_tables ← answer tables
          chosen ← chosen_tables cfg.source_include_table cfg.source_exclude_table all_tables
          not_empty chosen)
        else err no_schema

module _ (difference intersection : List Text → List Text → List Text) where
  -- the tables left: all, in their own spelling, where no view is among them
  unfoldable pub without_views : List Text → List Text → List Text
  without_views [] exporters = exporters
  without_views (v ∷ vs) exporters = filter_difference_string_items difference exporters (v ∷ vs)

  -- `FilterOracleCompatibleTable`, with the four functions that ask Oracle
  unfoldable pub filter_oracle_compatible_table :
      List Text
      → Option (List Text)
      → Option (List Text)
      → Option (List Text)
      → Option (List Text)
      → Result TableError Compatible
  filter_oracle_compatible_table exporters partitions temporaries clusters views = do
    partition ← answer partitions
    temporary ← answer temporaries
    cluster ← answer clusters
    view ← answer views
    let common : List Text → List Text = filter_intersection_string_items intersection exporters
    ok (record {
      partition_tables = common partition;
      temporary_tables = common temporary;
      clustered_tables = common cluster;
      materialized_view = common view;
      exporter_tables = without_views (common view) exporters;
    })
