-- ===== src/Reverse/Keys/Columns.antt =====
-- The columns of a key.
use transferdb.Prelude.{List, [], ◌∷◌, map, All, ok, ◌≡◌, ap}
use transferdb.Text.{Text, codes, split, join, strings_builder, equal_fold, text_eq, to_upper}
use transferdb.Text.Commas.{HasNoComma, split-join}
use transferdb.Reverse.Keys.{back_quoted, quoted_columns, field_case, gen_table_primary_key}

-- The primary key of a table whose columns are listed, joined by commas that no name has, and whose
-- names are kept as they are: each column stands in it between back quotes, in its order.
primary_key_columns :
    (n : Text) (ns : List Text)
    → All HasNoComma (n ∷ ns)
    → gen_table_primary_key (codes "0") (join (n ∷ ns) (codes ",") ∷ [])
      ≡ ok (
          strings_builder
            (codes "PRIMARY KEY (" ∷ join (map back_quoted (n ∷ ns)) (codes ",") ∷ codes ")" ∷ [])
          ∷ [])
unfolding gen_table_primary_key quoted_columns field_case split equal_fold text_eq to_upper
primary_key_columns n ns h =
    ap
      (λ cs. ok (
        strings_builder
          (codes "PRIMARY KEY (" ∷ join (map back_quoted cs) (codes ",") ∷ codes ")" ∷ [])
        ∷ []))
      (split-join n ns h)
