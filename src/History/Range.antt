-- ===== src/History/Range.antt =====
-- The queries of History in src/history.cpp: range(), range_by_id() and range_core().
--
-- The two SELECTs over `samples` are one operation of the parameter, none when a statement cannot be
-- prepared; each row comes with its rows of `sample_cells`.
-- History.Queries has what they yield of the tables.
use bms_bridge.Base.{
  ℕ, ◌≤◌, ◌<◌, ◌≡◌, List, [], ◌∷◌, Option, none, some, Option-cases, inl, inr, true, false, leb,
  if◌then◌else◌, All, Bytes,
}
use bms_bridge.History.Rows.{TelemetrySample, SampleRow, CellRow, sample_of}
use bms_bridge.History.{Sqlite, History, battery_name, battery_row_id}

-- select bat_id from_ms to_ms limit step_ms: no limit is SQLite's -1.
pub record Reader (D : Type 0) : Type 0 where
  pub select : ℕ → ℕ → ℕ → Option ℕ → ℕ → D → Option (List (SampleRow × List CellRow))

abbrev pub limit_of : ℕ → Option ℕ
limit_of limit = if leb limit 0 then none else some limit

unfoldable pub samples_of : Bytes → List (SampleRow × List CellRow) → List TelemetrySample
unfolding sample_of
samples_of name [] = []
samples_of name ((r, cs) ∷ rows) = sample_of name r cs ∷ samples_of name rows

module _ {D : Type 0} (R : Reader D) where
  unfoldable pub range_core :
      ℕ → Bytes → (from_ms to_ms limit step_ms : ℕ) → D → List TelemetrySample
  unfolding samples_of
  range_core bat_id name from_ms to_ms limit step_ms d =
      elim (R.select bat_id from_ms to_ms (limit_of limit) step_ms d) [
        | none ↦ []
        | some rows ↦ samples_of name rows
      ]

  unfoldable pub range_by_id :
      ℕ → (from_ms to_ms limit step_ms : ℕ) → History D → List TelemetrySample
  unfolding range_core battery_name
  range_by_id battery_id from_ms to_ms limit step_ms h =
      if leb battery_id 0
      then []
      else range_core battery_id (battery_name battery_id h.names) from_ms to_ms limit step_ms h.db

  -- The id is looked up, and remembered, by the reading connection.
  unfoldable pub range :
      Sqlite D
      → Bytes
      → (from_ms to_ms limit step_ms : ℕ) → History D
      → List TelemetrySample × History D
  unfolding range_core battery_row_id
  range S name from_ms to_ms limit step_ms h =
      let (id, k) = battery_row_id S false name h in
      elim id [
        | none ↦ ([], k)
        | some bat_id ↦ (range_core bat_id name from_ms to_ms limit step_ms k.db, k)
      ]

-- What both SELECTs say of their rows: the bounds of the WHERE, and the order, newest first.
abbrev pub Newest : List (SampleRow × List CellRow) → Type 0
Newest [] = Unit
Newest ((r, cs) ∷ rows) =
    All (λ (p : SampleRow × List CellRow). p.0.ts_ms ≤ r.ts_ms) rows × Newest rows

pub record IsSelect {D : Type 0} (R : Reader D) : Type 0 where
  pub bounded :
      (bat_id from_ms to_ms : ℕ) (limit : Option ℕ) (step_ms : ℕ) (d : D)
      {rows : List (SampleRow × List CellRow)}
      → R.select bat_id from_ms to_ms limit step_ms d ≡ some rows
      → All (λ (p : SampleRow × List CellRow). (from_ms ≤ p.0.ts_ms) × (p.0.ts_ms < to_ms)) rows
  pub ordered :
      (bat_id from_ms to_ms : ℕ) (limit : Option ℕ) (step_ms : ℕ) (d : D)
      {rows : List (SampleRow × List CellRow)}
      → R.select bat_id from_ms to_ms limit step_ms d ≡ some rows
      → Newest rows

-- The same of samples.
abbrev pub Within : (from_ms to_ms : ℕ) → List TelemetrySample → Type 0
Within from_ms to_ms = All (λ (s : TelemetrySample). (from_ms ≤ s.ts) × (s.ts < to_ms))

abbrev pub NewestFirst : List TelemetrySample → Type 0
NewestFirst [] = Unit
NewestFirst (s ∷ ss) = All (λ (t : TelemetrySample). t.ts ≤ s.ts) ss × NewestFirst ss

samples_of-All :
    (P : ℕ → Type 0) (name : Bytes) (rows : List (SampleRow × List CellRow))
    → All (λ (p : SampleRow × List CellRow). P p.0.ts_ms) rows
    → All (λ (s : TelemetrySample). P s.ts) (samples_of name rows)
unfolding samples_of
samples_of-All P name [] h = tt
samples_of-All P name ((r, cs) ∷ rows) h = (h.0, samples_of-All P name rows h.1)

samples_of-NewestFirst :
    (name : Bytes) (rows : List (SampleRow × List CellRow))
    → Newest rows
    → NewestFirst (samples_of name rows)
unfolding samples_of
samples_of-NewestFirst name [] h = tt
samples_of-NewestFirst name ((r, cs) ∷ rows) h =
    (samples_of-All (λ t. t ≤ r.ts_ms) name rows h.0, samples_of-NewestFirst name rows h.1)

range_core-Within :
    {D : Type 0} (R : Reader D)
    → IsSelect R
    → (bat_id : ℕ) (name : Bytes) (from_ms to_ms limit step_ms : ℕ) (d : D)
    → let page = range_core R bat_id name from_ms to_ms limit step_ms d in
      Within from_ms to_ms page × NewestFirst page
unfolding range_core
range_core-Within R w bat_id name from_ms to_ms limit step_ms d =
    elim (Option-cases (R.select bat_id from_ms to_ms (limit_of limit) step_ms d)) [
      | inl e ↦ rw (e, range_core) (tt, tt)
      | inr (rows, e) ↦
          rw (e, range_core)
            (
              samples_of-All (λ t. (from_ms ≤ t) × (t < to_ms)) name rows
                  (w.bounded bat_id from_ms to_ms (limit_of limit) step_ms d e),
              samples_of-NewestFirst name rows
                  (w.ordered bat_id from_ms to_ms (limit_of limit) step_ms d e),
            )
    ]

-- With what the SELECTs say: a page of a range lies in the range, the newest sample first.
pub range_by_id-Within :
    {D : Type 0} (R : Reader D)
    → IsSelect R
    → (battery_id from_ms to_ms limit step_ms : ℕ) (h : History D)
    → let page = range_by_id R battery_id from_ms to_ms limit step_ms h in
      Within from_ms to_ms page × NewestFirst page
unfolding range_by_id
range_by_id-Within R w battery_id from_ms to_ms limit step_ms h =
    elim (leb battery_id 0)
      as (λ b.
        let page =
          if b
          then []
          else range_core R battery_id (battery_name battery_id h.names) from_ms to_ms limit step_ms
              h.db in
        Within from_ms to_ms page × NewestFirst page) [
          | true ↦ (tt, tt)
          | false ↦
              range_core-Within R w battery_id (battery_name battery_id h.names) from_ms to_ms limit
                step_ms h.db
        ]
