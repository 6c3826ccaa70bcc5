-- ===== src/Check.antt =====
-- The check of the structure of two tables, module/check/oracle/o2m/diff.go: what the table of the target
-- has not that the one of the source has.
pub mod Struct
pub mod Statement
pub mod Report
pub mod Indexes
