-- ===== src/Compare.antt =====
-- The comparison of the data of two databases: module/compare/oracle/o2m. A table is cut into chunks
-- (Compare.Chunk), on a column that is chosen for it (Compare.Column); the rows of a chunk are read as texts
-- on both sides (Compare.Rows) and compared (Compare.Report); Compare.Table does so for all chunks of a table
-- and Compare.Start resumes or starts a run.
pub mod Rows
pub mod Report
pub mod Chunk
pub mod Column
pub mod Table
pub mod Start
