-- ===== src/Migrate/Apply/Atomic.antt =====
-- What a task leaves behind, whatever fails on the way.
use transferdb.Prelude.{
  Bool, true, false, ◌&&◌, ◌||◌, not, List, [], ◌∷◌, ◌++◌, All, any, none, some, if◌then◌else◌, ◌≡◌,
  ◌⊎◌, inl, inr, refl, sym, ap, Bool-cases, arith,
}
use mathlib.Core.Bool.{false≢true}
use transferdb.Text.{Text, codes, text_eq}
use transferdb.Migrate.Translate.{IncrTask}
use transferdb.Migrate.Apply.{MetaAction, exec_all, exec_prefix, meta_action, incr_apply}

-- statements that were executed, up to the first of a list that fails
abbrev pub IsCut : (Text → Bool) → List Text → List Text → Type 0
IsCut exec done redo =
    (s : Text) × (rest : List Text) × (redo ≡ done ++ s ∷ rest)
    × (exec s ≡ false)
    × All (λ t. exec t ≡ true) done

module _ (begins : Bool) (exec : Text → Bool) (commits : List Text → Bool)
    (meta_exec : MetaAction → Bool) where
  exec_all-fails :
      (redo : List Text)
      → exec_all begins exec commits meta_exec redo ≡ not (any (λ s. not (exec s)) redo)
  unfolding exec_all
  exec_all-fails [] = refl
  exec_all-fails (s ∷ redo) = ground (arith, exec_all-fails redo)

  exec_prefix-IsCut :
      (redo : List Text)
      → exec_all begins exec commits meta_exec redo ≡ false
      → IsCut exec (exec_prefix begins exec commits meta_exec redo) redo
  unfolding exec_all exec_prefix
  exec_prefix-IsCut [] h = absurd (false≢true (sym h))
  exec_prefix-IsCut (s ∷ redo) h = elim (Bool-cases (exec s)) [
    | inl e ↦
        let (t, rest, split, fails, before) = exec_prefix-IsCut redo (ground arith) in
        rw e (t, rest, ap (λ ss. s ∷ ss) split, fails, (e, before))
    | inr e ↦ rw e (s, redo, refl, e, tt)
  ]

  -- A task moves or deletes the checkpoint of its table exactly if each of its statements is executed,
  -- for an UPDATE, which is a DELETE and a REPLACE, in a transaction that begins and is committed, and
  -- the meta database carries the change out. If the statements are executed and committed, the target
  -- keeps all of them, whatever the meta database does. If not, it keeps no statement of an UPDATE, and of
  -- another task those in front of the first that fails.
  pub incr_apply-atomic :
      (p : IncrTask)
      → let r = incr_apply begins exec commits meta_exec p in
        let update = text_eq p.operation_type (codes "UPDATE") in
        let ok =
          not (any (λ s. not (exec s)) p.my_sql_redo)
          && (not update || begins && commits p.my_sql_redo) in
        (r.action ≡ (if ok && meta_exec (meta_action p) then some (meta_action p) else none))
        × ((ok ≡ true) × (r.written ≡ p.my_sql_redo)
            ⊎ (ok ≡ false) × (update ≡ true) × (r.written ≡ [])
            ⊎ (ok ≡ false) × (update ≡ false) × IsCut exec r.written p.my_sql_redo)
  unfolding incr_apply
  incr_apply-atomic p =
      let redo = p.my_sql_redo in
      let all = exec_all begins exec commits meta_exec redo in
      rw (← exec_all-fails redo) elim (Bool-cases (text_eq p.operation_type (codes "UPDATE"))) [
        | inl u ↦ elim (Bool-cases all) [
          | inl a ↦ elim (Bool-cases begins) [
            | inl b ↦ elim (Bool-cases (commits redo)) [
              | inl c ↦ rw (u, a, b, c) (refl, inl (refl, refl))
              | inr c ↦ rw (u, a, b, c) (refl, inr (inl (refl, refl, refl)))
            ]
            | inr b ↦ rw (u, a, b) (refl, inr (inl (refl, refl, refl)))
          ]
          | inr a ↦ elim (Bool-cases begins) [
            | inl b ↦ rw (u, a, b) (refl, inr (inl (refl, refl, refl)))
            | inr b ↦ rw (u, a, b) (refl, inr (inl (refl, refl, refl)))
          ]
        ]
        | inr u ↦ elim (Bool-cases all) [
          | inl a ↦ rw (u, a) (refl, inl (refl, refl))
          | inr a ↦ rw (u, a) (refl, inr (inr (refl, refl, exec_prefix-IsCut redo a)))
        ]
      ]
