-- ===== src/Compare/Chunk/Counted.antt =====
-- What a split leaves in the meta database.
use transferdb.Prelude.{◌<◌, Bool, List, ◌++◌, length, none, some, ◌≡◌, ◌⊎◌}
use transferdb.Text.{Text}
use transferdb.Meta.{update_where}
use transferdb.Meta.Wait.{of_wait_table}
use transferdb.Meta.Compare.{DataCompareMeta, CompareDb, with_chunks}
use transferdb.Compare.Chunk.{
  Config, Chunk, ChunkError, close_failed, Split, Databases, wait_row, task_name,
}

module _ (same : Text → Text → Bool) (o : Databases) (cfg : Config) (c : Chunk)
    (db : CompareDb) where
  -- Some chunks were added. The rows of the table have no new number, and there is an error; or they have
  -- the number of the chunks, which is above 0, and the task of Oracle may not have been closed.
  abbrev pub IsCounted : Split → Type 0
  IsCounted s =
      (rows : List DataCompareMeta) × (s.db.data_compare_meta ≡ db.data_compare_meta ++ rows)
      × (((s.db.wait_sync_meta ≡ db.wait_sync_meta) × ((e : ChunkError) × (s.failure ≡ some e)))
          ⊎ (0 < length rows)
            × (s.db.wait_sync_meta
                ≡ update_where (of_wait_table same (wait_row cfg c (length rows)))
                    (with_chunks (wait_row cfg c (length rows))) db.wait_sync_meta)
            × ((s.failure ≡ none) ⊎ (s.failure ≡ some (close_failed (task_name cfg c)))))
