-- ===== src/Migrate/Logminer/Collect.antt =====
-- Collecting by table: what the map holds after the records arrived.
use transferdb.Prelude.{
  Bool, true, false, ◌||◌, List, [], ◌∷◌, ◌++◌, append_assoc, append-nil, Option, none, some,
  filter, if◌then◌else◌, ◌≡◌, refl, sym, ap, ◌∙◌, arith,
}
use transferdb.Text.{Text, text_eq, to_upper}
use transferdb.Text.Laws.{text_eq_iff}
use transferdb.Dict.{Dict, get, set}
use transferdb.Dict.Laws.{get-set}
use transferdb.Migrate.Logminer.{Logminer, add_record, init_map, schedule}

abbrev pub is_of : Text → Logminer → Bool
is_of k c = text_eq (to_upper c.source_table) k

abbrev pub is_listed : Text → List Text → Bool
is_listed k [] = false
is_listed k (t ∷ ts) = text_eq (to_upper t) k || is_listed k ts

abbrev with_more : Option (List Logminer) → List Logminer → Option (List Logminer)
with_more none more = none
with_more (some old) more = some (old ++ more)

with_more-nil : (o : Option (List Logminer)) → with_more o [] ≡ o
with_more-nil none = refl
with_more-nil (some old) = rw (append-nil old)

with_more-append :
    (o : Option (List Logminer)) (xs ys : List Logminer)
    → with_more (with_more o xs) ys ≡ with_more o (xs ++ ys)
with_more-append none xs ys = refl
with_more-append (some old) xs ys = rw (append_assoc old xs ys)

get-add :
    (k : Text) (c : Logminer) (m : Dict (List Logminer)) (o : Option (List Logminer))
    → get (to_upper c.source_table) m ≡ o
    → get k (add_record o c m) ≡ with_more (get k m) (if is_of k c then c ∷ [] else [])
get-add k c m none e =
    ground (arith, text_eq_iff (to_upper c.source_table) k, with_more-nil (get k m))
get-add k c m (some old) e =
    let t = to_upper c.source_table in
    ground (arith, text_eq_iff t k, with_more-nil (get k m), get-set t k (old ++ c ∷ []) m)

if-append :
    (b : Bool) (c : Logminer) (cs : List Logminer)
    → (if b then c ∷ [] else []) ++ cs ≡ (if b then c ∷ cs else cs)
if-append true c cs = refl
if-append false c cs = refl

get-schedule :
    (k : Text) (cs : List Logminer) (m : Dict (List Logminer))
    → get k (schedule cs m) ≡ with_more (get k m) (filter (is_of k) cs)
unfolding schedule
get-schedule k [] m = sym (with_more-nil (get k m))
get-schedule k (c ∷ cs) m =
    let first = if is_of k c then c ∷ [] else [] in
    get-schedule k cs (add_record (get (to_upper c.source_table) m) c m)
    ∙ ap (λ o. with_more o (filter (is_of k) cs))
        (get-add k c m (get (to_upper c.source_table) m) refl)
    ∙ with_more-append (get k m) first (filter (is_of k) cs)
    ∙ ap (with_more (get k m)) (if-append (is_of k c) c (filter (is_of k) cs))

get-init_map :
    (k : Text) (ts : List Text) (m : Dict (List Logminer))
    → get k (init_map ts m) ≡ (if is_listed k ts then some [] else get k m)
unfolding init_map
get-init_map k [] m = refl
get-init_map k (t ∷ ts) m =
    ground (arith, get-init_map k ts (set (to_upper t) [] m), get-set (to_upper t) k [] m)

with_more-if :
    (b : Bool) (cs : List Logminer)
    → with_more (if b then some [] else none) cs ≡ (if b then some cs else none)
with_more-if true cs = refl
with_more-if false cs = refl

-- Each table of the task gets exactly its own records, in the order of their arrival; a record of
-- another table is left out.
pub get-schedule-init_map :
    (k : Text) (tables : List Text) (arrived : List Logminer)
    → get k (schedule arrived (init_map tables []))
      ≡ (if is_listed k tables then some (filter (is_of k) arrived) else none)
unfolding get
get-schedule-init_map k tables arrived =
    get-schedule k arrived (init_map tables [])
    ∙ ap (λ o. with_more o (filter (is_of k) arrived)) (get-init_map k tables [])
    ∙ with_more-if (is_listed k tables) (filter (is_of k) arrived)
