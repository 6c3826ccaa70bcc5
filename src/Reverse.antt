-- ===== src/Reverse.antt =====
-- module/reverse/oracle/public: how the reverse task chooses the MySQL type, the default value and
-- the name of each Oracle table and column.
pub mod TypeMap
pub mod TypeRule
pub mod DefaultValue
pub mod TableName
pub mod Change
pub mod Tables
pub mod Keys
pub mod Index
pub mod Prefix
pub mod Columns
