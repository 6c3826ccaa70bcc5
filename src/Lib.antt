-- ===== src/Lib.antt =====
-- transferdb moves the tables of an Oracle database to MySQL or TiDB. This library models the parts
-- of it that decide what is moved and how: which tables are taken, how a type, a name and a default
-- value are translated, how rows and redo records become statements.
--
-- The parts, and the files of the repository they follow:
--   * Prelude, Text, Dict: tests, lists, results of Go functions, the functions of package strings and
--     strconv that the code calls, and Go's maps as association lists. A text is a list of character
--     codes.
--   * Common.Split, Common.Escape, Common.Sets, Common.Charset: common/strings.go,
--     `SplitMultipleSlice`, `SpecialLettersUsingMySQL`, `SpecialLettersUsingOracle`,
--     `FilterDifferenceStringItems` and its like, `CharsetConvert`.
--   * Filter: the directory filter, `Parse`, `parsePattern`, `MatchTable`; Filter.Parser is the loop of
--     `parsePattern` over the characters.
--   * Reverse.Tables: module/reverse/oracle/public/filter.go, which uses Filter and Common.Sets.
--   * Reverse.TypeMap and Reverse.TypeMap.Cases: mapping_mysql.go beside it, `OracleTableColumnMapMySQLRule`;
--     Reverse.TypeMap.Builtin is the rule table of common/buildin.go and
--     database/meta/buildin_datatype_rule.go.
--   * Reverse.TypeRule and Reverse.DefaultValue: rule_load.go beside it, the rules of users.
--   * Reverse.TableName and Reverse.Change: change.go beside it, which asks for the rules and applies
--     them to every table and column; its calls of Reverse.TypeMap and Reverse.TypeRule are those of
--     the code.
--   * Reverse.Keys: module/reverse/oracle/o2m/rule.go, the texts of the keys, check constraints and
--     indexes of a table, and Reverse.Index, which puts them together as `GenTableKeys`. Reverse.Prefix
--     is the beginning and the end of the statement, and Reverse.Columns its columns, with the maps of
--     common/reverse.go; a comment is converted and escaped by Common.Charset and Common.Escape. The two
--     tests of package regexp and its replacement of a name are parameters.
--   * Migrate.Rows and Migrate.Statement: the full copy. database/oracle/full.go reads rows in batches
--     and sends them through a channel to module/migrate/sql/oracle/o2m/table.go, which writes the
--     statements with the functions of translate.go.
--   * Meta: the tables of the meta database, database/meta, as lists of rows with the statements on them:
--     sync_meta_wait.go has a row for a table, sync_meta_full.go one for a chunk, sync_meta_incr.go the
--     checkpoints, and transaction.go the statements on two tables. Meta.Collation is a collation that
--     does not tell case, Meta.Groups the batches of meta.go.
--   * Migrate.Full: the full copy of a schema, module/migrate/sql/oracle/o2m/full.go. Migrate.Full.Start is
--     `Full`, which refuses, resumes or starts a task; Migrate.Full.Init makes the chunks of a table, with
--     the columns of Migrate.Full.Columns; Migrate.Full itself runs them and records their outcomes in
--     Meta, and Migrate.Rows is what a run of one copies.
--   * Migrate.Incr: incr.go beside it, the loop over the log files. It filters with Migrate.Logminer and
--     moves the checkpoints with Meta.Incr.
--   * Migrate.Logminer, Migrate.Stmt, Migrate.Translate, Migrate.Apply: the incremental copy, from
--     logminer.go, scheduler.go and sqlparser.go in module/migrate/sql/oracle/public to translate.go and
--     apply.go in module/migrate/sql/oracle/o2m. Redo records are filtered and collected by table,
--     parsed, translated to statements, and applied together with a move of the checkpoint.
--   * Compare: the comparison of the data of two databases, module/compare/oracle/o2m. Compare.Start is
--     `NewCompare` of compare.go up to its tables, Compare.Table the loops of comparePartTableTasks and
--     compareWaitTableTasks there, Compare.Column the columns of task.go, Compare.Chunk the chunks of
--     chunk.go, Compare.Rows the texts and sums of the rows, from compare.go in database/oracle and in
--     database/mysql, and Compare.Report the report of report.go. The chunks are rows of
--     data_compare_meta, Meta.Compare.
--   * Check: the check of the structure of two tables, module/check/oracle/o2m/diff.go: the checks of keys,
--     indexes, partitions, comments and character sets, with `DiffStructArray` and `VersionOrdinal` of
--     common/strings.go in Common.Diff and Common.Version.
--   * Tests: concrete inputs.
--
-- How the code is modelled. A function that can fail gives a value, an error or a panic. An error keeps
-- the data it reports and not its wording. Log lines and times are left out. Where goroutines pass
-- values through a channel, the values are a list and the order of their arrival is an argument; what
-- went through a channel that was closed early is a list together with the error. Loops are structural
-- recursion over the list they range over, or over the number of rounds that is left, so no fuel is
-- needed. Lengths and indexes are natural numbers, and a slice bound out of range is a panic; lengths
-- stay far below 2 ^ 63. `strconv.Atoi` keeps the range of an int64, and a SCN is a natural number.
--
-- A table of the meta database is the list of its rows, a condition of a statement a test on a row. The
-- statements that make the chunks of a table, in Compare.Chunk and Migrate.Full.Init, and those of
-- Migrate.Apply may fail, a violated unique index among the reasons; elsewhere the statements on the
-- meta database do not fail, but for the unique index that Compare.Start asks for. Goroutines that
-- share a variable are a list of the steps they take.
-- The goroutines of different tables change different rows, so they are taken one after the other.
--
-- Parameters stand for code outside the repository: package regexp, package unicode beyond ASCII, the
-- sets of scylladb/go-set, the number packages, the encoders of golang.org/x/text, the parser of pingcap/tidb
-- and its printer, and every answer of a database. The case of letters is that of ASCII.
-- Go's range over a map is a parameter that orders the keys.
--
-- Not modelled: the queries themselves, the copies of the code for TiDB (the o2t directories), the way
-- from MySQL back to Oracle, the check of the columns of two tables, the part of `NewCompare` that
-- joins the parts of the comparison, the assessment report, the export to CSV files, the comment of a
-- table in the reverse task's DDL and the writing of its files, the worker pool that applies redo
-- records, and configuration, logging and signals. They are database access, text output or glue, or
-- follow the parts that are here.
pub mod Prelude
pub mod Text
pub mod Dict
pub mod Common
pub mod Filter
pub mod Reverse
pub mod Meta
pub mod Migrate
pub mod Check
pub mod Compare
pub mod Tests
