-- ===== src/Compare/Start/Kept.antt =====
-- Rows of tables that the start of a comparison keeps.
use transferdb.Prelude.{
  Bool, true, false, List, [], ◌∷◌, filter, any, any-append, Option, none, some, if◌then◌else◌, ◌≡◌,
  refl, inl, inr, Bool-cases, arith,
}
use transferdb.Text.{Text}
use transferdb.Meta.{WaitSyncMeta}
use transferdb.Meta.Wait.{create_wait_sync_meta, detail_wait_sync_meta}
use transferdb.Compare.Chunk.{Config}
use transferdb.Compare.Start.{
  StartError, Made, and_then, is_none, schema_key, waiting_row, has_key, create_unique, ensure_row,
  ensure_rows,
}

pub any-filter_implied :
    {A : Type 0} (q p : A → Bool) (rows : List A)
    → ((r : A) → q r ≡ true → p r ≡ true)
    → any q rows ≡ true
    → any q (filter p rows) ≡ true
any-filter_implied q p [] h e = e
any-filter_implied q p (r ∷ rows) h e = elim (Bool-cases (q r)) [
  | inl k ↦ rw (h r k, k) refl
  | inr k ↦ elim (Bool-cases (p r)) [
    | inl k' ↦ rw (k', k) (any-filter_implied q p rows h (ground arith))
    | inr k' ↦ rw k' (any-filter_implied q p rows h (ground arith))
  ]
]

pub if_kept :
    {A : Type 0} (b : Bool) (xs ys : List A) (q : A → Bool)
    → any q xs ≡ true
    → any q ys ≡ true
    → any q (if b then xs else ys) ≡ true
if_kept true xs ys q h h' = h
if_kept false xs ys q h h' = h'

module _ (same : Text → Text → Bool) (cfg : Config) (q : WaitSyncMeta → Bool) where
  pub row_kept :
      (mode t : Text) (rows : List WaitSyncMeta)
      → any q rows ≡ true
      → any q (ensure_row same cfg mode t rows).rows ≡ true
  unfolding ensure_row create_unique create_wait_sync_meta
  row_kept mode t rows e =
      elim (Bool-cases (
        is_none
          (detail_wait_sync_meta same (record (schema_key same cfg) { table_name_s = t }) rows))) [
            | inl n ↦
                elim (Bool-cases (any (has_key same cfg (waiting_row same cfg mode t)) rows)) [
                  | inl k ↦ rw (n, k) e
                  | inr k ↦ rw (n, k, any-append q rows (waiting_row same cfg mode t ∷ []), e) refl
                ]
            | inr n ↦ rw n e
          ]

  pub next_kept :
      (e : Option StartError) (rows : List WaitSyncMeta) (next : List WaitSyncMeta → Made)
      → any q rows ≡ true
      → ((rs : List WaitSyncMeta) → any q rs ≡ true → any q (next rs).rows ≡ true)
      → any q (and_then e rows next).rows ≡ true
  next_kept none rows next h f = f rows h
  next_kept (some e) rows next h f = h

  pub rows_kept :
      (ts : List Text) (rows : List WaitSyncMeta)
      → any q rows ≡ true
      → any q (ensure_rows same cfg ts rows).rows ≡ true
  unfolding ensure_rows
  rows_kept [] rows e = e
  rows_kept (t ∷ ts) rows e =
      next_kept (ensure_row same cfg cfg.task_mode t rows).error _ (ensure_rows same cfg ts)
        (row_kept cfg.task_mode t rows e) (rows_kept ts)
