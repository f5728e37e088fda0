-- ===== src/History/Queries.antt =====
-- The SELECTs over `samples` and `sample_cells` in History::range_core of src/history.cpp, as what
-- they yield of the tables. Where two samples of a battery have one time, SQLite may yield either first.
mod Clauses
pub mod Reading
pub mod Thinning
use bms_bridge.Base.{
  ℕ, ◌+◌, ◌-◌, ◌/◌, List, [], ◌∷◌, Option, none, some, Bool, true, false, ltb, leb, ◌==◌, ◌&&◌,
  if◌then◌else◌, take,
}
use bms_bridge.History.Rows.{SampleRow, CellRow}
use bms_bridge.History.Range.{Reader}
use bms_bridge.History.Transactions.{Tables}

-- A row of `samples` with its id.
abbrev pub Row : Type 0
Row = ℕ × SampleRow

-- battery_id = ? AND ts_ms >= ? AND ts_ms < ?
abbrev pub in_window : (bat_id from_ms to_ms : ℕ) → Row → Bool
in_window bat_id from_ms to_ms (id, r) =
    r.battery_id == bat_id && (leb from_ms r.ts_ms && ltb r.ts_ms to_ms)

unfoldable pub where_clause : (bat_id from_ms to_ms : ℕ) → List Row → List Row
where_clause bat_id from_ms to_ms [] = []
where_clause bat_id from_ms to_ms (r ∷ rs) =
    let rest = where_clause bat_id from_ms to_ms rs in
    if in_window bat_id from_ms to_ms r then r ∷ rest else rest

-- ORDER BY ts_ms DESC
unfoldable pub insert_by_time : Row → List Row → List Row
insert_by_time (i, r) [] = (i, r) ∷ []
insert_by_time (i, r) ((j, q) ∷ rest) =
    let later = insert_by_time (i, r) rest in
    if leb q.ts_ms r.ts_ms then (i, r) ∷ (j, q) ∷ rest else (j, q) ∷ later

unfoldable pub by_time : List Row → List Row
unfolding insert_by_time
by_time [] = []
by_time (r ∷ rs) = insert_by_time r (by_time rs)

-- (ts_ms - ?) / ?
abbrev pub bucket : (from_ms step_ms : ℕ) → Row → ℕ
bucket from_ms step_ms (id, r) = (r.ts_ms - from_ms) / step_ms

abbrev pub is_bucket : Option ℕ → ℕ → Bool
is_bucket none b = false
is_bucket (some c) b = c == b

-- rn = 1: the first row of each bucket, of rows that are ordered by their time. `prev` is the bucket
-- of the row before.
unfoldable pub first_of_buckets : (from_ms step_ms : ℕ) → (prev : Option ℕ) → List Row → List Row
first_of_buckets from_ms step_ms prev [] = []
first_of_buckets from_ms step_ms prev (r ∷ rs) =
    let b = bucket from_ms step_ms r in
    let rest = first_of_buckets from_ms step_ms (some b) rs in
    if is_bucket prev b then rest else r ∷ rest

-- LIMIT ?
abbrev pub limited : Option ℕ → List Row → List Row
limited none rs = rs
limited (some n) rs = take n rs

unfoldable pub select_samples :
    (bat_id from_ms to_ms : ℕ) → Option ℕ → (step_ms : ℕ) → List Row → List Row
unfolding where_clause by_time first_of_buckets
select_samples bat_id from_ms to_ms limit step_ms rs =
    let sorted = by_time (where_clause bat_id from_ms to_ms rs) in
    limited limit (if ltb 0 step_ms then first_of_buckets from_ms step_ms none sorted else sorted)

-- The rows of a sample's cells, ORDER BY cell_idx ASC.
unfoldable pub insert_by_idx : CellRow → List CellRow → List CellRow
insert_by_idx c [] = c ∷ []
insert_by_idx c (d ∷ rest) =
    let later = insert_by_idx c rest in
    if leb c.cell_idx d.cell_idx then c ∷ d ∷ rest else d ∷ later

unfoldable pub select_cells : (sample_id : ℕ) → List (ℕ × CellRow) → List CellRow
unfolding insert_by_idx
select_cells sample_id [] = []
select_cells sample_id ((id, c) ∷ cs) =
    let rest = select_cells sample_id cs in if id == sample_id then insert_by_idx c rest else rest

unfoldable pub with_cells : List (ℕ × CellRow) → List Row → List (SampleRow × List CellRow)
unfolding select_cells
with_cells cs [] = []
with_cells cs ((id, r) ∷ rs) = (r, select_cells id cs) ∷ with_cells cs rs

-- Both statements can be prepared.
unfoldable pub table_reader : Reader Tables
unfolding select_samples with_cells
table_reader = record {
  select = λ bat_id from_ms to_ms limit step_ms t.
      some (with_cells t.cells (select_samples bat_id from_ms to_ms limit step_ms t.samples));
}
