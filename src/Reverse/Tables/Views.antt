-- ===== src/Reverse/Tables/Views.antt =====
-- Which tables are left when the materialized views are taken out.
use transferdb.Prelude.{not, ◌&&◌, List, [], ◌∷◌, some, ok, ◌≡◌, refl, ◌∙◌, arith}
use transferdb.Text.{Text}
use transferdb.Common.Sets.{
  is_contain_string, filter_difference_string_items, filter_intersection_string_items,
}
use transferdb.Reverse.Tables.{Compatible, filter_oracle_compatible_table, without_views}
use transferdb.Reverse.Tables.Selection.{AreUpper, map-upper, not-both}

module _ (difference intersection : List Text → List Text → List Text)
    (is_difference : (xs ys : List Text) (k : Text)
      → is_contain_string (difference xs ys) k
        ≡ (is_contain_string xs k && not (is_contain_string ys k)))
    (is_intersection : (xs ys : List Text) (k : Text)
      → is_contain_string (intersection xs ys) k
        ≡ (is_contain_string xs k && is_contain_string ys k))
    (is_upper : (xs ys : List Text) → AreUpper xs → AreUpper (intersection xs ys)) where
  left-without_views :
      (vs exporters : List Text) (k : Text)
      → AreUpper exporters
      → AreUpper vs
      → is_contain_string (without_views difference intersection vs exporters) k
        ≡ (is_contain_string exporters k && not (is_contain_string vs k))
  unfolding without_views filter_difference_string_items is_contain_string
  left-without_views [] exporters k h _ = ground arith
  left-without_views (v ∷ vs) exporters k h u =
      rw (map-upper exporters h, map-upper (v ∷ vs) u) (is_difference exporters (v ∷ vs) k)

  -- Where Oracle answers all four questions and names are in upper case, exactly those tables are
  -- left that are no materialized view.
  exporters_without_views :
      (exporters partitions temporaries clusters views : List Text)
      → AreUpper exporters
      → AreUpper views
      → (c : Compatible) × (filter_oracle_compatible_table difference intersection exporters
            (some partitions)
            (some temporaries)
            (some clusters)
            (some views)
          ≡ ok c)
        × ((k : Text)
            → is_contain_string c.exporter_tables k
              ≡ (is_contain_string exporters k && not (is_contain_string views k)))
  unfolding filter_oracle_compatible_table filter_intersection_string_items
  exporters_without_views exporters partitions temporaries clusters views he hv =
      let common = intersection exporters views in
      let common_eq : filter_intersection_string_items intersection exporters views ≡ common =
        rw (map-upper exporters he, map-upper views hv) refl in
      (
        record {
          partition_tables = filter_intersection_string_items intersection exporters partitions;
          temporary_tables = filter_intersection_string_items intersection exporters temporaries;
          clustered_tables = filter_intersection_string_items intersection exporters clusters;
          materialized_view = filter_intersection_string_items intersection exporters views;
          exporter_tables =
              without_views difference intersection
                (filter_intersection_string_items intersection exporters views) exporters;
        },
        refl,
        λ k. rw common_eq (
            left-without_views common exporters k he (is_upper exporters views he)
            ∙ rw (is_intersection exporters views k)
                (not-both (is_contain_string exporters k) (is_contain_string views k))),
      )
