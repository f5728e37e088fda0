-- ===== src/History/Queries/Reading.antt =====
-- What the history takes of the SELECTs, for the tables: the bounds and the order of their rows.
use bms_bridge.Base.{
  ℕ, ◌≤◌, ◌<◌, ◌≡◌, subst, List, [], ◌∷◌, Option, none, some_inj, true, Bool-cases, inl, inr, ltb,
  All, All-map, arith,
}
use bms_bridge.History.Rows.{SampleRow, CellRow}
use bms_bridge.History.Range.{Newest, IsSelect}
use bms_bridge.History.Queries.{
  Row, in_window, where_clause, by_time, first_of_buckets, select_samples, with_cells, table_reader,
}
use bms_bridge.History.Queries.Clauses.{
  time, Descends, by_time-All, first-All, limited-All, where_clause-window, by_time-Descends,
  limited-Descends, first-Descends,
}

module _ (P : SampleRow → Type 0) (cs : List (ℕ × CellRow)) where
  with_cells-All :
      (rs : List Row)
      → All (λ (r : Row). P r.1) rs
      → All (λ (p : SampleRow × List CellRow). P p.0) (with_cells cs rs)
  unfolding with_cells
  with_cells-All [] h = tt
  with_cells-All ((id, r) ∷ rs) h = (h.0, with_cells-All rs h.1)

with_cells-Newest :
    (cs : List (ℕ × CellRow)) (rs : List Row) → Descends rs → Newest (with_cells cs rs)
unfolding with_cells
with_cells-Newest cs [] d = tt
with_cells-Newest cs ((id, r) ∷ rs) d =
    (with_cells-All (λ q. q.ts_ms ≤ r.ts_ms) cs rs d.0, with_cells-Newest cs rs d.1)

window_bounds :
    (bat_id from_ms to_ms : ℕ) (r : Row)
    → in_window bat_id from_ms to_ms r ≡ true
    → (from_ms ≤ time r) × (time r < to_ms)
window_bounds bat_id from_ms to_ms (id, r) e = ground arith

module _ (bat_id from_ms to_ms : ℕ) (limit : Option ℕ) (step_ms : ℕ) (rs : List Row) where
  select_samples-window :
      All
        (λ r. in_window bat_id from_ms to_ms r ≡ true)
        (select_samples bat_id from_ms to_ms limit step_ms rs)
  unfolding select_samples
  select_samples-window =
      let P : Row → Type 0 = λ r. in_window bat_id from_ms to_ms r ≡ true in
      let kept = where_clause bat_id from_ms to_ms rs in
      let sorted = by_time-All P kept (where_clause-window bat_id from_ms to_ms rs) in
      elim (Bool-cases (ltb 0 step_ms)) [
        | inl e ↦ rw e (
            limited-All P limit (first_of_buckets from_ms step_ms none (by_time kept))
              (first-All P from_ms step_ms none (by_time kept) sorted))
        | inr e ↦ rw e (limited-All P limit (by_time kept) sorted)
      ]

  select_samples-Descends : Descends (select_samples bat_id from_ms to_ms limit step_ms rs)
  unfolding select_samples
  select_samples-Descends =
      let kept = where_clause bat_id from_ms to_ms rs in
      let d = by_time-Descends kept in
      elim (Bool-cases (ltb 0 step_ms)) [
        | inl e ↦ rw e (
            limited-Descends limit (first_of_buckets from_ms step_ms none (by_time kept))
              (first-Descends from_ms step_ms none (by_time kept) d))
        | inr e ↦ rw e (limited-Descends limit (by_time kept) d)
      ]

-- The SELECTs over the tables keep to the bounds and to the order.
pub table_reader-IsSelect : IsSelect table_reader
unfolding table_reader
table_reader-IsSelect = record {
  bounded = λ bat_id from_ms to_ms limit step_ms t e.
      subst (All (λ (p : SampleRow × List CellRow). (from_ms ≤ p.0.ts_ms) × (p.0.ts_ms < to_ms)))
        (some_inj e)
        (with_cells-All (λ q. (from_ms ≤ q.ts_ms) × (q.ts_ms < to_ms)) t.cells
          (select_samples bat_id from_ms to_ms limit step_ms t.samples)
          (All-map (λ r. window_bounds bat_id from_ms to_ms r)
            (select_samples bat_id from_ms to_ms limit step_ms t.samples)
            (select_samples-window bat_id from_ms to_ms limit step_ms t.samples)));
  ordered = λ bat_id from_ms to_ms limit step_ms t e. subst Newest (some_inj e) (
      with_cells-Newest t.cells (select_samples bat_id from_ms to_ms limit step_ms t.samples)
        (select_samples-Descends bat_id from_ms to_ms limit step_ms t.samples));
}
