-- ===== src/History/Aggregate.antt =====
-- History::aggregate_pending of src/history.cpp: the energy of the past days, and the purge.
--
-- SQLite, the double arithmetic and the calendar are parameters. A time is in milliseconds since
-- 1970; log lines are left out.
pub mod Purging
use bms_bridge.Base.{
  ℕ, ◌+◌, ◌-◌, ◌*◌, ◌/◌, List, [], ◌∷◌, Option, none, some, Bool, true, false, if◌then◌else◌, Bytes,
  ℤ,
}
use bms_bridge.History.{Sqlite}

-- The operations of doubles: the value of an integer, and its tests and arithmetic.
pub record Doubles (F : Type 0) : Type 0 where
  pub of_int : ℤ → F
  pub of_count : ℕ → F
  pub add : F → F → F
  pub sub : F → F → F
  pub mul : F → F → F
  pub div : F → F → F
  pub is_positive : F → Bool

-- The statements: days without a row in daily_energy, a day's samples in their order, a day's row,
-- and the deletion of old samples. None is a statement that cannot be prepared.
pub record DailyStore (D F : Type 0) : Type 0 where
  pub find_pending : ℕ → D → Option (List (ℕ × Bytes))
  pub get_samples : (bat_id day_start day_end : ℕ) → D → Option (List (ℕ × ℤ × ℤ))
  pub insert_daily : ℕ → Bytes → F → F → D → Bool × D
  pub delete_before : ℕ → D → Bool × D

abbrev pub day_ms : ℕ
day_ms = 86400000

-- Midnight of the current UTC day.
abbrev pub today_of : (now_ms : ℕ) → ℕ
today_of now_ms = now_ms / day_ms * day_ms

abbrev pub purge_of : (now_ms : ℕ) → ℕ
purge_of now_ms = today_of now_ms - 8 * day_ms

module _ {F : Type 0} (N : Doubles F) where
  -- voltage_mV / 1000 * current_mA / 1000, in W.
  unfoldable pub power : ℤ → ℤ → F
  power voltage_mv current_ma =
      N.div (N.mul (N.of_int voltage_mv) (N.of_int current_ma)) (N.of_count 1000000)

  -- The trapezoid between two samples, in Wh.
  unfoldable pub trapezoid : (prev_ts ts : ℕ) → F → F → F
  trapezoid prev_ts ts prev_pw pw =
      N.mul (N.div (N.add prev_pw pw) (N.of_count 2))
        (N.div (N.of_count (ts - prev_ts)) (N.of_count 3600000))

  -- The loop behind the first sample: charged and discharged energy.
  unfoldable pub integrate_from :
      (prev_ts : ℕ) (prev_pw charged discharged : F) → List (ℕ × ℤ × ℤ) → F × F
  unfolding power trapezoid
  integrate_from prev_ts prev_pw charged discharged [] = (charged, discharged)
  integrate_from prev_ts prev_pw charged discharged ((ts, mv, ma) ∷ rows) =
      let pw = power mv ma in
      let dwh = trapezoid prev_ts ts prev_pw pw in
      let gains = N.is_positive dwh in
      integrate_from ts pw (if gains then N.add charged dwh else charged)
        (if gains then discharged else N.sub discharged dwh) rows

  unfoldable pub integrate : List (ℕ × ℤ × ℤ) → F × F
  unfolding integrate_from power
  integrate [] = (N.of_count 0, N.of_count 0)
  integrate ((ts, mv, ma) ∷ rows) =
      integrate_from ts (power mv ma) (N.of_count 0) (N.of_count 0) rows

module _ {D F : Type 0} (S : Sqlite D) (Y : DailyStore D F) (N : Doubles F) where
  -- The end of a day's transaction: `ok && COMMIT`, or the rollback.
  unfoldable pub close_day : Bool × D → D
  close_day (false, d) = S.rollback d
  close_day (true, d) = let (committed, e) = S.commit d in if committed then e else S.rollback e

  unfoldable pub write_day : ℕ → Bytes → F × F → D → D
  unfolding close_day
  write_day bat_id date (charged, discharged) d =
      let (begun, e) = S.begin d in
      if begun then close_day (Y.insert_daily bat_id date charged discharged e) else e

  -- `day_start` is what strptime and timegm make of a date.
  unfoldable pub aggregate_day : (day_start : Bytes → ℕ) → ℕ × Bytes → D → D
  unfolding write_day integrate
  aggregate_day day_start (bat_id, date) d =
      let start = day_start date in
      elim (Y.get_samples bat_id start (start + day_ms) d) [
        | none ↦ d
        | some rows ↦ write_day bat_id date (integrate N rows) d
      ]

  unfoldable pub aggregate_days : (day_start : Bytes → ℕ) → List (ℕ × Bytes) → D → D
  unfolding aggregate_day
  aggregate_days day_start [] d = d
  aggregate_days day_start (p ∷ ps) d = aggregate_days day_start ps (aggregate_day day_start p d)

  unfoldable pub aggregate_pending : (day_start : Bytes → ℕ) (now_ms : ℕ) → D → D
  unfolding aggregate_days
  aggregate_pending day_start now_ms d = elim (Y.find_pending (today_of now_ms) d) [
    | none ↦ d
    | some [] ↦ d
    | some (p ∷ ps) ↦ (Y.delete_before (purge_of now_ms) (aggregate_days day_start (p ∷ ps) d)).1
  ]
