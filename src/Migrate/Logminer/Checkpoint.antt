-- ===== src/Migrate/Logminer/Checkpoint.antt =====
-- Which records pass their checkpoint, in the first run and in a resumed run.
use transferdb.Prelude.{
  ℕ, ◌<◌, Bool, true, false, List, [], ◌∷◌, none, some, filter, leb, All, ok, ◌≡◌, refl, arith,
  lt→ltb,
}
use transferdb.Text.{Text, to_upper}
use transferdb.Dict.{Dict, get}
use transferdb.Migrate.Logminer.{
  Logminer, scn_or_zero, is_ddl, send, filter_row, filter_rows, filter_oracle_incr_record, schedule,
  init_map,
}
use transferdb.Migrate.Logminer.Collect.{is_of, is_listed, get-schedule-init_map}

abbrev pub IsDml : Logminer → Type 0
IsDml r = is_ddl r ≡ false

-- whether a record is at its table's checkpoint or behind it
abbrev pub is_fresh : Dict ℕ → Logminer → Bool
is_fresh scns r = leb (scn_or_zero (get (to_upper r.source_table) scns)) r.scn

filter_rows-first :
    (scns : Dict ℕ) (rows : List Logminer)
    → All IsDml rows
    → filter_rows scns 0 rows ≡ ok (filter (is_fresh scns) rows)
unfolding filter_rows filter_row send
filter_rows-first scns [] _ = refl
filter_rows-first scns (r ∷ rows) (d, ds) = let ih = filter_rows-first scns rows ds in ground arith

-- In the first run, if no record of the batch is a DDL, every listed table gets exactly those of its
-- records that are not in front of the table's checkpoint, in the order of their arrival.
pub first_run :
    (arrive : List Logminer → List Logminer) (scns : Dict ℕ) (tables : List Text)
    (rows : List Logminer) (k : Text)
    → All IsDml rows
    → is_listed k tables ≡ true
    → (m : Dict (List Logminer)) × (filter_oracle_incr_record arrive rows tables scns 0 ≡ ok m)
      × (get k m ≡ some (filter (is_of k) (arrive (filter (is_fresh scns) rows))))
unfolding filter_oracle_incr_record
first_run arrive scns tables rows k d listed =
    let sent = arrive (filter (is_fresh scns) rows) in
    (
      schedule sent (init_map tables []),
      rw (filter_rows-first scns rows d),
      rw (get-schedule-init_map k tables sent, listed),
    )

-- In a resumed run the checkpoints of the tables have no say: with no checkpoint stored under the
-- text of a statement, every DML record with a positive SCN is applied again.
resumed_run :
    (scns : Dict ℕ) (rows : List Logminer)
    → All IsDml rows
    → All (λ r. get (to_upper r.sql_redo) scns ≡ none) rows
    → All (λ r. 0 < r.scn) rows
    → filter_rows scns 1 rows ≡ ok rows
unfolding filter_rows filter_row send
resumed_run scns [] _ _ _ = refl
resumed_run scns (r ∷ rows) (d, ds) (n, ns) (p, ps) =
    let ih = resumed_run scns rows ds ns ps in let t = lt→ltb 0 r.scn p in ground arith
