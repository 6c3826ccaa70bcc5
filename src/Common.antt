-- ===== src/Common.antt =====
-- The helpers of package common that carry logic of their own.
pub mod Split
pub mod Escape
pub mod Sets
pub mod Charset
pub mod Diff
pub mod Version
