-- ===== src/Tests/Store.antt =====
-- A history over a small database with transactions, and what it stores and remembers.
use bms_bridge.Base.{
  ℕ, ◌+◌, ◌-◌, ◌≡◌, ◌≢◌, ◌⊎◌, ◌↔◌, refl, List, [], ◌∷◌, Option, none, some, Bool, true, false,
  Bytes, arith, ℤ, pos, ◌+ℤ◌, ◌-ℤ◌, mul_ℤ, div_ℤ, pos_part, ltb,
}
use bms_bridge.Jk.Types.{JkCellInfo, default_jk_cell_info}
use bms_bridge.History.Rows.{TelemetrySample, sample_of, SampleRow, sample_row, cell_rows}
use bms_bridge.History.Rows.RoundTrip.{IsCells, IsPack, sample_of-rows}
use bms_bridge.History.{Sqlite, History, battery_row_id, append, recent}
use bms_bridge.History.Transactions.{Tables, add_sample, add_cell, IsTransactional, Succeeds}
use bms_bridge.History.Atomic.{Appended, append-Appended}
use bms_bridge.History.Window.{Appends, run, samples, wanted, last_clock, recent-run}
use bms_bridge.History.Aggregate.{Doubles, DailyStore, today_of, purge_of, aggregate_days}
use bms_bridge.History.Aggregate.Purging.{IsDailyStore, since, left_by, aggregate_pending-since}
use bms_bridge.History.Months.{InMonth, date_text, InMonth-iff}
use bms_bridge.Tests.{pack}

-- `draft` is what an open transaction has made of the tables.
pub record Db : Type 0 where
  pub committed : Tables
  pub draft : Option Tables
  pub next : ℕ

abbrev pub seen : Db → Tables
seen d = elim d.draft [ none ↦ d.committed | some t ↦ t ]

abbrev pub change : Tables → Db → Db
change t d = elim d.draft [
  | none ↦ record d { committed = t }
  | some u ↦ record d { draft = some t }
]

abbrev pub sqlite : Sqlite Db
sqlite = record {
  find_battery = λ name d. none;
  insert_battery = λ name d. (some 1, d);
  begin = λ d. elim d.draft [
    | none ↦ (true, record d { draft = some d.committed })
    | some t ↦ (false, d)
  ];
  insert_sample = λ row d.
      (some d.next, change (add_sample d.next row (seen d)) (record d { next = d.next + 1 }));
  insert_cell = λ id c d. (true, change (add_cell id c (seen d)) d);
  commit = λ d. elim d.draft [
    | none ↦ (false, d)
    | some t ↦ (true, record d { committed = t; draft = none })
  ];
  rollback = λ d. record d { draft = none };
}

abbrev transacts : Db → Bool
transacts d = elim d.draft [ none ↦ false | some t ↦ true ]

sqlite-IsTransactional : IsTransactional sqlite
sqlite-IsTransactional = record {
  committed = λ d. d.committed;
  current = seen;
  in_transaction = transacts;
  begin_ok = λ d t b. ground arith;
  begin_fails = λ d t b. ground arith;
  sample_ok = λ row id d t e. ground arith;
  sample_fails = λ row d t e. cc;
  cell_ok = λ id c d t e. ground arith;
  cell_fails = λ id c d t e. cc;
  commit_ok = λ d t e. ground arith;
  commit_fails = λ d t e. ground arith;
  rollback = λ d. (refl, refl);
  insert_battery = λ name d. (refl, refl);
}

abbrev pub empty_db : Db
empty_db = record { committed = record { samples = []; cells = [] }; draft = none; next = 1 }

abbrev empty_history : History Db
empty_history = record { ram = []; ram_window = 10000; names = []; db = empty_db }

abbrev pub two_cells : JkCellInfo
two_cells = record default_jk_cell_info {
  voltages_mv = 3301 ∷ 3299 ∷ [];
  resistance_uohm = 120 ∷ 130 ∷ [];
}

abbrev name : Bytes
name = b'm' ∷ []

append-Appended_example :
    let k = append sqlite 5000 name 5000 two_cells pack empty_history in
    (transacts k.db ≡ false)
    × ((k.db.committed ≡ empty_db.committed)
        ⊎ Appended sqlite sqlite-IsTransactional 5000 two_cells pack empty_db k.db)
    × (Succeeds sqlite
        → (battery_row_id sqlite true name empty_history).0 ≢ none
        → Appended sqlite sqlite-IsTransactional 5000 two_cells pack empty_db k.db)
unfolding sqlite-IsTransactional
append-Appended_example =
    append-Appended sqlite sqlite-IsTransactional 5000 name 5000 two_cells pack empty_history refl

pub two_cells-IsCells : IsCells two_cells
two_cells-IsCells = record {
  voltages_mv = (omega arith, (omega arith, tt));
  resistance_uohm = (omega arith, (omega arith, tt));
  paired = refl;
  average_voltage_mv = omega arith;
  voltage_diff_mv = omega arith;
  max_voltage_cell_idx = omega arith;
  min_voltage_cell_idx = omega arith;
}

pub pack-IsPack : IsPack pack
pack-IsPack = record {
  voltage_mv = omega arith;
  current_ma = omega arith;
  state_of_charge_pct = omega arith;
  remaining_capacity_mah = omega arith;
  total_capacity_mah = omega arith;
  cycle_count = omega arith;
  battery_temp1_dc = omega arith;
  battery_temp2_dc = omega arith;
  power_tube_temp_dc = omega arith;
  balance_current_ma = omega arith;
  errors_bitmask = omega arith;
}

sample_of-rows_example :
    sample_of name (sample_row 1 5000 two_cells pack) (cell_rows two_cells)
    ≡ record { battery_id = name; ts = 5000; cells = two_cells; pack = pack }
sample_of-rows_example = sample_of-rows 1 name 5000 two_cells pack two_cells-IsCells pack-IsPack

abbrev at_time : ℕ → TelemetrySample
at_time ts = record { battery_id = name; ts = ts; cells = two_cells; pack = pack }

abbrev appends : Appends
appends = (5000, at_time 5000) ∷ (9000, at_time 9000) ∷ (16000, at_time 16000) ∷ []

recent-run_example :
    recent name (run sqlite appends empty_history).ram
    ≡ wanted name (last_clock 0 appends - 10000) (samples appends)
recent-run_example =
    recent-run sqlite appends name empty_history refl
      (omega arith, omega arith, (omega arith, omega arith, (omega arith, omega arith, tt)))

-- The oldest sample has left the window.
two_left : wanted name 6000 (samples appends) ≡ at_time 9000 ∷ at_time 16000 ∷ []
two_left = refl

InMonth-iff_example :
    InMonth 2025 12 (date_text 2025 12 31) ↔ ((◌≡◌ {A = ℕ} 2025 2025) × (◌≡◌ {A = ℕ} 12 12))
InMonth-iff_example =
    InMonth-iff 2025 12 2025 12 31 (omega arith) (omega arith) (omega arith) (omega arith)
      (omega arith) (omega arith) (omega arith) (omega arith)

-- Whole numbers as the doubles of the aggregation.
abbrev pub whole_numbers : Doubles ℤ
whole_numbers = record {
  of_int = λ z. z;
  of_count = pos;
  add = ◌+ℤ◌;
  sub = ◌-ℤ◌;
  mul = λ a b. mul_ℤ a (pos_part b);
  div = λ a b. div_ℤ a (pos_part b);
  is_positive = λ a. ltb 0 (pos_part a);
}

-- The days are not stored here, and one is always pending.
abbrev pub daily_store : DailyStore Db ℤ
daily_store = record {
  find_pending = λ today d. some ((1, []) ∷ []);
  get_samples = λ bat_id day_start day_end d. some [];
  insert_daily = λ bat_id date charged discharged d. (true, d);
  delete_before = λ cutoff d. (
    true,
    record d { committed = record d.committed { samples = since cutoff d.committed.samples } },
  );
}

daily_store-IsDailyStore : IsDailyStore sqlite sqlite-IsTransactional daily_store
unfolding sqlite-IsTransactional
daily_store-IsDailyStore = record {
  insert_ok = λ bat_id date charged discharged d t e. (refl, refl, t);
  insert_fails = λ bat_id date charged discharged d t e. refl;
  delete_ok = λ cutoff d t e. refl;
  delete_fails = λ cutoff d t e. cc;
}

-- One sample of the first day, and one of the twentieth.
abbrev old_db : Db
old_db = record {
  committed = record {
    samples =
        (2, sample_row 1 1728000000 two_cells pack) ∷ (1, sample_row 1 5000 two_cells pack) ∷ [];
    cells = [];
  };
  draft = none;
  next = 3;
}

abbrev left : List (ℕ × SampleRow)
left =
    left_by sqlite sqlite-IsTransactional daily_store whole_numbers daily_store-IsDailyStore
      (λ date. 0) 1728000500 old_db

aggregate_pending-since_example :
    (daily_store.find_pending (today_of 1728000500) old_db ≡ none → left ≡ old_db.committed.samples)
    × (daily_store.find_pending (today_of 1728000500) old_db ≡ some []
        → left ≡ old_db.committed.samples)
    × ((p : ℕ × Bytes) (ps : List (ℕ × Bytes))
        → daily_store.find_pending (today_of 1728000500) old_db ≡ some (p ∷ ps)
        → let last = aggregate_days sqlite daily_store whole_numbers (λ date. 0) (p ∷ ps) old_db in
          ((daily_store.delete_before (purge_of 1728000500) last).0 ≡ true
            → left ≡ since (purge_of 1728000500) old_db.committed.samples)
          × ((daily_store.delete_before (purge_of 1728000500) last).0 ≡ false
              → left ≡ old_db.committed.samples))
unfolding sqlite-IsTransactional
aggregate_pending-since_example =
    aggregate_pending-since sqlite sqlite-IsTransactional daily_store whole_numbers
      daily_store-IsDailyStore (λ date. 0) 1728000500 old_db refl
