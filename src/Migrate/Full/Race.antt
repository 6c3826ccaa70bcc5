-- ===== src/Migrate/Full/Race.antt =====
-- The chunks of a table that run at the same time (`SQLThreads` above 1). All their goroutines assign
-- to the one variable `err`, so a goroutine may record the outcome of another.
use transferdb.Prelude.{List, ◌++◌, map}
use transferdb.Text.{Text}
use transferdb.Meta.{FullSyncMeta}
use transferdb.Migrate.Full.{ChunkStep, copied, recorded}

-- all the copies end before the first of them is recorded
abbrev pub at_once : List FullSyncMeta → List ChunkStep
at_once ms = map copied ms ++ map recorded ms
