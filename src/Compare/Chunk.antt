-- ===== src/Compare/Chunk.antt =====
-- module/compare/oracle/o2m/chunk.go: the chunks of a table. Parameters: `same`, the collation of the meta
-- database, and the answers of Oracle and the meta database; the chunks themselves are made by DBMS_PARALLEL_EXECUTE.
pub mod Counted
pub mod Cover
use transferdb.Prelude.{
  ℕ, Bool, true, false, List, [], ◌∷◌, ◌++◌, map, length, Option, none, some, if◌then◌else◌, Result,
  ok, err, panic, ℤ, pos, eqb_ℤ,
}
use transferdb.Text.{Text, codes, text_eq, to_upper, equal_fold, itoa_ℕ, strings_builder}
use transferdb.Meta.{WaitSyncMeta, no_wait_sync_meta, waiting, update_where}
use transferdb.Meta.Wait.{of_wait_table}
use transferdb.Meta.Groups.{array_struct_groups_of}
use transferdb.Meta.Compare.{
  DataCompareMeta, CompareDb, create_data_compare_meta_and_update_wait_sync_meta, with_chunks,
}
use transferdb.Migrate.Rows.Batches.{rows_of}

-- a table of the section `schema.compare`
pub record CompareConfig : Type 0 where
  pub source_table : Text
  pub index_fields : Text
  pub range : Text

-- what the comparison reads of the configuration
pub record Config : Type 0 where
  pub db_type_s : Text
  pub db_type_t : Text
  pub source_schema : Text
  pub target_schema : Text
  pub task_mode : Text
  pub only_check_rows : Bool
  pub enable_checkpoint : Bool
  pub insert_batch_size : ℕ
  pub compare_config : List CompareConfig

pub record Chunk : Type 0 where
  pub chunk_id : ℕ
  pub source_global_scn : ℕ
  pub source_table : Text
  pub target_table : Text
  pub is_partition : Text
  pub source_column_info : Text
  pub target_column_info : Text
  pub where_column : Text

-- What Oracle and the meta database answer: no answer, or false for a statement, stands for an error. The
-- last three are of the meta database: whether it carries out the transaction of one chunk, inserts a batch
-- behind the chunks that it has, and updates the row of a table.
pub record Databases : Type 0 where
  pub is_number_column_type : Text → Text → Option Bool
  pub table_rows_by_statistics : Text → Option ℤ
  pub start_chunk_create_task : Text → Bool
  pub create_chunk_by_number : Text → Text → Text → Bool
  pub table_chunks_by_number : Text → Text → Option (List Text)
  pub chunk_bounds : Text → Option (List (Text × Text))
  pub close_chunk_task : Text → Bool
  pub creates_one : CompareDb → DataCompareMeta → Bool
  pub inserts : List DataCompareMeta → List DataCompareMeta → Bool
  pub updates_wait : CompareDb → WaitSyncMeta → Bool

pub data ChunkError : Type 0 where
  index_field_not_number : Text → ChunkError
  query_failed : Text → ChunkError
  close_failed : Text → ChunkError
  meta_failed : ChunkError
  -- a division by zero
  batch_size_zero : ChunkError

-- how a split ends: what was written, and the error
pub record Split : Type 0 where
  pub db : CompareDb
  pub failure : Option ChunkError

-- the decision on an index field, with what Oracle says of its type
unfoldable pub number_field : Text → Option Bool → Result ChunkError (Text × Text)
number_field field (some true) = ok (field, [])
number_field field (some false) = err (index_field_not_number field)
number_field field none = err (index_field_not_number field)

-- the first entry for the table: its column and its range, of which the range goes first
unfoldable pub custom_table_config :
    Databases → Text → List CompareConfig → Result ChunkError (Text × Text)
unfolding equal_fold number_field
custom_table_config o table [] = ok ([], [])
custom_table_config o table (t ∷ ts) =
    let rest = custom_table_config o table ts in
    if equal_fold table t.source_table
    then if text_eq t.range []
      then if text_eq t.index_fields []
        then ok ([], [])
        else number_field t.index_fields (o.is_number_column_type t.source_table t.index_fields)
      else ok ([], t.range)
    else rest

-- the row of a chunk with the columns, the column of the condition and the condition
abbrev pub meta_row : Config → Chunk → Text → Text → Text → Text → DataCompareMeta
meta_row cfg c columns_s columns_t column range = record {
  db_type_s = cfg.db_type_s;
  db_type_t = cfg.db_type_t;
  schema_name_s = to_upper cfg.source_schema;
  table_name_s = to_upper c.source_table;
  column_detail_s = columns_s;
  schema_name_t = to_upper cfg.target_schema;
  table_name_t = to_upper c.target_table;
  column_detail_t = columns_t;
  where_column = column;
  where_range = range;
  task_mode = cfg.task_mode;
  task_status = waiting;
  is_partition = c.is_partition;
}

-- the row of the table with its number of chunks
abbrev pub wait_row : Config → Chunk → ℕ → WaitSyncMeta
wait_row cfg c n = record no_wait_sync_meta {
  db_type_s = cfg.db_type_s;
  db_type_t = cfg.db_type_t;
  schema_name_s = to_upper cfg.source_schema;
  table_name_s = to_upper c.source_table;
  task_mode = cfg.task_mode;
  global_scn_s = c.source_global_scn;
  chunk_total_nums = pos n;
  is_partition = c.is_partition;
}

abbrev pub task_name : Config → Chunk → Text
task_name cfg c = strings_builder (
    to_upper cfg.source_schema
    ∷ codes "_"
    ∷ c.source_table
    ∷ codes "_"
    ∷ codes "TASK"
    ∷ itoa_ℕ c.chunk_id
    ∷ [])

-- the chunks on both sides of those of Oracle, which the rows that only the target has fall into
unfoldable pub boundary_rows :
    Config → Chunk → Text → Text → List (Text × Text) → List DataCompareMeta
boundary_rows cfg c column end [] = []
boundary_rows cfg c column end ((start, _) ∷ res) =
    meta_row cfg c c.source_column_info c.target_column_info column
      (strings_builder (column ∷ codes " < " ∷ start ∷ []))
    ∷ meta_row cfg c c.source_column_info c.target_column_info column
        (strings_builder (column ∷ codes " > " ∷ end ∷ []))
    ∷ boundary_rows cfg c column end res

-- `res[0]["END_ID"]`, which is read only where there is a row
abbrev pub first_end : List (Text × Text) → Text
first_end [] = []
first_end ((_, end) ∷ _) = end

unfoldable pub chunk_rows :
    Config → Chunk → Text → List Text → List (Text × Text) → List DataCompareMeta
unfolding boundary_rows
chunk_rows cfg c column cmds res =
    map (λ cmd. meta_row cfg c c.source_column_info c.target_column_info column cmd) cmds
    ++ boundary_rows cfg c column (first_end res) res

abbrev pub failed_split : ChunkError → CompareDb → Split
failed_split e db = record { db = db; failure = some e }

-- the task of Oracle is closed at the end only
abbrev pub closed : Databases → Text → CompareDb → Option ChunkError → Split
closed o task db (some e) = record { db = db; failure = some e }
closed o task db none = record {
  db = db;
  failure = if o.close_chunk_task task then none else some (close_failed task);
}

-- the statements of the batches: whether all of them succeed, and the chunks behind them
unfoldable pub insert_batches :
    Databases → List (List DataCompareMeta) → List DataCompareMeta → Bool × List DataCompareMeta
insert_batches o [] chunks = (true, chunks)
insert_batches o (g ∷ gs) chunks =
    let rest = insert_batches o gs (chunks ++ g) in
    if o.inserts chunks g then rest else (false, chunks)

module _ (same : Text → Text → Bool) where
  -- the update of the row of the table behind the batches
  abbrev pub inserted : Databases → CompareDb → WaitSyncMeta → Bool × List DataCompareMeta → Split
  inserted o db w (false, chunks) = record {
    db = record db { data_compare_meta = chunks };
    failure = some meta_failed;
  }
  inserted o db w (true, chunks) =
      let added : CompareDb = record db { data_compare_meta = chunks } in
      if o.updates_wait added w
      then record {
        db = record {
          data_compare_meta = chunks;
          wait_sync_meta = update_where (of_wait_table same w) (with_chunks w) db.wait_sync_meta;
        };
        failure = none;
      }
      else record { db = added; failure = some meta_failed }

  abbrev pub created :
      Databases → CompareDb → WaitSyncMeta → Option (List (List DataCompareMeta)) → Split
  created o db w none = record { db = db; failure = some batch_size_zero }
  created o db w (some gs) = inserted o db w (insert_batches o gs db.data_compare_meta)

  -- the statements in batches, outside of a transaction
  unfoldable pub batch_create_data_compare_meta_and_update_wait_sync_meta :
      Databases → List DataCompareMeta → ℕ → WaitSyncMeta → CompareDb → Split
  unfolding array_struct_groups_of insert_batches
  batch_create_data_compare_meta_and_update_wait_sync_meta o metas size w db =
      created o db w (array_struct_groups_of metas size)

  -- the table as one chunk, in a transaction
  unfoldable pub create_one : Databases → Config → Chunk → Text → Text → Text → CompareDb → Split
  unfolding create_data_compare_meta_and_update_wait_sync_meta
  create_one o cfg c columns_s columns_t range db =
      if o.creates_one db (meta_row cfg c columns_s columns_t [] range)
      then record {
        db =
            create_data_compare_meta_and_update_wait_sync_meta same
              (meta_row cfg c columns_s columns_t [] range) (wait_row cfg c 1) db;
        failure = none;
      }
      else record { db = db; failure = some meta_failed }

  unfoldable pub create_many :
      Databases → Config → Chunk → Text → List Text → List (Text × Text) → CompareDb → Split
  unfolding chunk_rows batch_create_data_compare_meta_and_update_wait_sync_meta
  create_many o cfg c column cmds res db =
      let metas = chunk_rows cfg c column cmds res in
      let s =
        batch_create_data_compare_meta_and_update_wait_sync_meta o metas cfg.insert_batch_size
          (wait_row cfg c (length metas)) db in
      closed o (task_name cfg c) s.db s.failure

  abbrev pub bounded :
      Databases
      → Config
      → Chunk
      → Text
      → List Text
      → CompareDb
      → Option (List (Text × Text))
      → Split
  bounded o cfg c column cmds db none = failed_split (query_failed (task_name cfg c)) db
  bounded o cfg c column cmds db (some res) = create_many o cfg c column cmds res db

  -- what Oracle has made of a table: no chunk, or chunks
  abbrev pub with_cmds : Databases → Config → Chunk → Text → CompareDb → Option (List Text) → Split
  with_cmds o cfg c column db none = failed_split (query_failed (task_name cfg c)) db
  with_cmds o cfg c column db (some []) =
      create_one o cfg c c.source_column_info c.target_column_info (codes "1 = 1") db
  with_cmds o cfg c column db (some (k ∷ ks)) =
      bounded o cfg c column (k ∷ ks) db (o.chunk_bounds (task_name cfg c))

  unfoldable pub split_by_number : Databases → Config → Chunk → Text → CompareDb → Split
  unfolding create_one create_many
  split_by_number o cfg c column db =
      if o.start_chunk_create_task (task_name cfg c)
      then if o.create_chunk_by_number (task_name cfg c) (to_upper c.source_table) column
        then with_cmds o cfg c column db (o.table_chunks_by_number (task_name cfg c) column)
        else failed_split (query_failed (task_name cfg c)) db
      else failed_split (query_failed (task_name cfg c)) db

  -- the statistics of a table: no row, or rows
  abbrev pub with_statistics : Databases → Config → Chunk → Text → CompareDb → Option ℤ → Split
  with_statistics o cfg c column db none = failed_split (query_failed c.source_table) db
  with_statistics o cfg c column db (some n) =
      if eqb_ℤ n (pos 0)
      then create_one o cfg c c.source_column_info c.target_column_info (codes "1 = 1") db
      else split_by_number o cfg c (if text_eq column [] then c.where_column else column) db

  abbrev pub configured :
      Databases → Config → Chunk → CompareDb → Result ChunkError (Text × Text) → Split
  configured o cfg c db (err e) = failed_split e db
  configured o cfg c db panic = failed_split batch_size_zero db
  configured o cfg c db (ok (column, range)) =
      if text_eq range []
      then with_statistics o cfg c column db (o.table_rows_by_statistics c.source_table)
      else create_one o cfg c c.source_column_info c.target_column_info range db

  unfoldable pub split : Databases → Config → Chunk → CompareDb → Split
  unfolding create_one split_by_number custom_table_config
  split o cfg c db =
      if cfg.only_check_rows
      then create_one o cfg c (codes "COUNT(1)") (codes "COUNT(1)") (codes "1 = 1") db
      else configured o cfg c db (custom_table_config o c.source_table cfg.compare_config)
