-- ===== src/Migrate.antt =====
-- module/migrate/sql/oracle: the full and the incremental copy of the data.
pub mod Logminer
pub mod Rows
pub mod Statement
pub mod Stmt
pub mod Translate
pub mod Apply
pub mod Full
pub mod Incr
