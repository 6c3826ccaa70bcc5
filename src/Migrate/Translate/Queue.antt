-- ===== src/Migrate/Translate/Queue.antt =====
-- The queue of tasks, and whether it is closed.
use transferdb.Prelude.{
  true, false, List, [], ◌∷◌, ◌++◌, Option, none, some, ok, err, ◌≡◌, refl, ap, ◌∙◌, arith,
}
use transferdb.Text.{Text}
use transferdb.Migrate.Logminer.{Logminer}
use transferdb.Migrate.Stmt.{Expr, Node, IncrError}
use transferdb.Migrate.Translate.{
  IncrTask, push, translate_record, translate_and_add_oracle_incr_record,
}

module _ (parse : Text → Option (List Node)) (restore : Expr → Text)
    (range : List Text → List Text) where
  -- the records are translated to these tasks
  abbrev pub AreTranslated : List Logminer → List IncrTask → Type 0
  AreTranslated [] [] = Unit
  AreTranslated (r ∷ rs) (t ∷ ts) =
      (translate_record parse restore range r ≡ ok t) × AreTranslated rs ts
  AreTranslated _ _ = ⊥

  queue-step :
      (r : Logminer) (rs : List Logminer) (t : IncrTask)
      → translate_record parse restore range r ≡ ok t
      → translate_and_add_oracle_incr_record parse restore range (r ∷ rs)
        ≡ push t (translate_and_add_oracle_incr_record parse restore range rs)
  unfolding translate_and_add_oracle_incr_record
  queue-step r rs t h = ground arith

  queue-err :
      (r : Logminer) (rs : List Logminer) (e : IncrError)
      → translate_record parse restore range r ≡ err e
      → translate_and_add_oracle_incr_record parse restore range (r ∷ rs)
        ≡ record { tasks = []; closed = false; error = some e }
  unfolding translate_and_add_oracle_incr_record
  queue-err r rs e h = ground arith

  -- Where every record is translated, all tasks are sent in the order of the records, and the queue
  -- is closed.
  pub translated_queue :
      (rs : List Logminer) (ts : List IncrTask)
      → AreTranslated rs ts
      → translate_and_add_oracle_incr_record parse restore range rs
        ≡ record { tasks = ts; closed = true; error = none }
  unfolding translate_and_add_oracle_incr_record push
  translated_queue [] [] _ = refl
  translated_queue [] (t ∷ ts) bad = absurd bad
  translated_queue (r ∷ rs) [] bad = absurd bad
  translated_queue (r ∷ rs) (t ∷ ts) (h, hs) =
      queue-step r rs t h ∙ ap (push t) (translated_queue rs ts hs)

  -- Where a record cannot be translated, the tasks in front of it are sent and the queue is left
  -- open, so the workers that read it wait for ever; the records behind it are not sent.
  untranslated_queue :
      (rs : List Logminer) (ts : List IncrTask) (r : Logminer) (rest : List Logminer)
      (e : IncrError)
      → AreTranslated rs ts
      → translate_record parse restore range r ≡ err e
      → translate_and_add_oracle_incr_record parse restore range (rs ++ r ∷ rest)
        ≡ record { tasks = ts; closed = false; error = some e }
  unfolding push
  untranslated_queue [] [] r rest e _ h = queue-err r rest e h
  untranslated_queue [] (t ∷ ts) r rest e bad h = absurd bad
  untranslated_queue (q ∷ rs) [] r rest e bad h = absurd bad
  untranslated_queue (q ∷ rs) (t ∷ ts) r rest e (p, ps) h =
      queue-step q (rs ++ r ∷ rest) t p ∙ ap (push t) (untranslated_queue rs ts r rest e ps h)
