-- ===== src/Tests/Queries.antt =====
-- A table of three samples, read in buckets.
use bms_bridge.Base.{ℕ, ◌≡◌, refl, List, [], ◌∷◌, none, some, true, map, All, arith}
use bms_bridge.History.Rows.{sample_row}
use bms_bridge.History.Queries.{
  Row, in_window, where_clause, insert_by_time, by_time, first_of_buckets, select_samples,
}
use bms_bridge.History.Queries.Thinning.{OnePerBucket, Stands, Any, select_samples-Thins}
use bms_bridge.Tests.{cells, pack}

abbrev row : (id ts : ℕ) → Row
row id ts = (id, sample_row 7 ts cells pack)

abbrev rows : List Row
rows = row 1 100 ∷ row 2 119 ∷ row 3 107 ∷ row 4 300 ∷ []

abbrev id_of : Row → ℕ
id_of r = r.0

rows_in_buckets : map id_of (select_samples 7 100 200 none 10 rows) ≡ 2 ∷ 3 ∷ []
unfolding select_samples where_clause by_time insert_by_time first_of_buckets sample_row
rows_in_buckets = refl

rows_plain : map id_of (select_samples 7 100 200 (some 2) 0 rows) ≡ 2 ∷ 3 ∷ []
unfolding select_samples where_clause by_time insert_by_time first_of_buckets sample_row
rows_plain = refl

select_samples-Thins_example :
    OnePerBucket 100 10 (omega arith) (select_samples 7 100 200 none 10 rows)
    × All
        (λ q. (in_window 7 100 200 q ≡ true) × Any (λ r. q ≡ r) rows)
        (select_samples 7 100 200 none 10 rows)
    × All
        (λ r.
          in_window 7 100 200 r ≡ true
          → Any (Stands 100 10 (omega arith) r) (select_samples 7 100 200 none 10 rows))
        rows
select_samples-Thins_example = select_samples-Thins 100 10 (omega arith) 7 200 rows
