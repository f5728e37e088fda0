-- ===== src/History.antt =====
-- History of src/history.cpp: the telemetry of the last days in memory, and in SQLite.
--
-- SQLite is a parameter: `Sqlite` has an operation for each statement, with its outcome and the
-- database behind it. A time is in milliseconds of the system clock, and `now` is its reading.
pub mod Rows
pub mod Window
pub mod Transactions
pub mod Atomic
pub mod Months
pub mod Range
pub mod Aggregate
pub mod Opening
pub mod Queries
pub mod Known
use bms_bridge.Base.{
  ℕ, ◌-◌, List, [], ◌∷◌, ◌++◌, Option, none, some, Bool, true, false, ltb, leb, if◌then◌else◌,
  Bytes, same_name, ◌==◌,
}
use bms_bridge.Jk.Types.{JkCellInfo, JkPackInfo}
use bms_bridge.History.Rows.{TelemetrySample, SampleRow, CellRow, sample_row, cell_rows}

pub record Sqlite (D : Type 0) : Type 0 where
  pub find_battery : Bytes → D → Option ℕ
  pub insert_battery : Bytes → D → Option ℕ × D
  pub begin : D → Bool × D
  pub insert_sample : SampleRow → D → Option ℕ × D
  pub insert_cell : ℕ → CellRow → D → Bool × D
  pub commit : D → Bool × D
  pub rollback : D → D

-- `names` is `battery_id_cache_`.
pub record History (D : Type 0) : Type 0 where
  pub ram : List TelemetrySample
  pub ram_window : ℕ
  pub names : List (Bytes × ℕ)
  pub db : D

-- The front samples that are older than the cutoff are dropped.
unfoldable pub trim : ℕ → List TelemetrySample → List TelemetrySample
trim cutoff [] = []
trim cutoff (s ∷ ss) = let rest = trim cutoff ss in if ltb s.ts cutoff then rest else s ∷ ss

unfoldable pub keep_in_ram : ℕ → ℕ → TelemetrySample → List TelemetrySample → List TelemetrySample
unfolding trim
keep_in_ram now window s ram = trim (now - window) (ram ++ s ∷ [])

-- recent(): a battery's samples, in their order.
unfoldable pub recent : Bytes → List TelemetrySample → List TelemetrySample
recent name [] = []
recent name (s ∷ ss) =
    let rest = recent name ss in if same_name s.battery_id name then s ∷ rest else rest

unfoldable pub cached : Bytes → List (Bytes × ℕ) → Option ℕ
cached name [] = none
cached name ((n, id) ∷ rest) =
    let later = cached name rest in if same_name n name then some id else later

-- load_battery_cache(): the rows of `batteries`; a name that is null is empty.
unfoldable pub load_battery_cache : List (ℕ × Option Bytes) → List (Bytes × ℕ) → List (Bytes × ℕ)
load_battery_cache [] names = names
load_battery_cache ((id, none) ∷ rows) names = load_battery_cache rows (([], id) ∷ names)
load_battery_cache ((id, some name) ∷ rows) names = load_battery_cache rows ((name, id) ∷ names)

-- battery_name(): empty for an id that no battery has.
unfoldable pub battery_name : ℕ → List (Bytes × ℕ) → Bytes
battery_name id [] = []
battery_name id ((n, i) ∷ rest) = let later = battery_name id rest in if i == id then n else later

-- The order of battery_list().
unfoldable pub insert_by_id : Bytes × ℕ → List (Bytes × ℕ) → List (Bytes × ℕ)
insert_by_id b [] = b ∷ []
insert_by_id (n, id) ((m, i) ∷ rest) =
    let later = insert_by_id (n, id) rest in
    if leb id i then (n, id) ∷ (m, i) ∷ rest else (m, i) ∷ later

unfoldable pub battery_list : List (Bytes × ℕ) → List (Bytes × ℕ)
unfolding insert_by_id
battery_list [] = []
battery_list (b ∷ rest) = insert_by_id b (battery_list rest)

module _ {D : Type 0} (S : Sqlite D) where
  -- The id in the database, which is created when that is asked for.
  unfoldable pub resolve : Bool → Bytes → D → Option ℕ × D
  resolve create name d = elim (S.find_battery name d) [
    | some id ↦ (some id, d)
    | none ↦ if create then S.insert_battery name d else (none, d)
  ]

  abbrev pub remember : Bytes → Option ℕ → List (Bytes × ℕ) → List (Bytes × ℕ)
  remember name none names = names
  remember name (some id) names = (name, id) ∷ names

  unfoldable pub battery_row_id : Bool → Bytes → History D → Option ℕ × History D
  unfolding cached resolve
  battery_row_id create name h = elim (cached name h.names) [
    | some id ↦ (some id, h)
    | none ↦
        let (id, d) = resolve create name h.db in
        (id, record h { names = remember name id h.names; db = d })
  ]

  unfoldable pub ensure_battery_id : Bytes → History D → Option ℕ × History D
  unfolding battery_row_id
  ensure_battery_id name h = battery_row_id true name h

  unfoldable pub insert_cells : ℕ → List CellRow → D → Bool × D
  insert_cells id [] d = (true, d)
  insert_cells id (c ∷ cs) d =
      let (inserted, e) = S.insert_cell id c d in
      let rest = insert_cells id cs e in if inserted then rest else (false, e)

  -- The statements between BEGIN and the end of append(), behind the inserted sample.
  unfoldable pub finish : ℕ → List CellRow → D → D
  unfolding insert_cells
  finish id cs d =
      let (inserted, e) = insert_cells id cs d in
      if inserted
      then (let (committed, f) = S.commit e in if committed then f else S.rollback f)
      else S.rollback e

  unfoldable pub store : SampleRow → List CellRow → D → D
  unfolding finish
  store row cs d =
      let (begun, e) = S.begin d in
      let (id, f) = S.insert_sample row e in
      if begun then elim id [ none ↦ S.rollback f | some i ↦ finish i cs f ] else e

  unfoldable pub append : ℕ → Bytes → ℕ → JkCellInfo → JkPackInfo → History D → History D
  unfolding keep_in_ram battery_row_id store sample_row cell_rows
  append now name ts cells pack h =
      let s : TelemetrySample = record { battery_id = name; ts = ts; cells = cells; pack = pack } in
      let kept = record h { ram = keep_in_ram now h.ram_window s h.ram } in
      let (id, known) = battery_row_id true name kept in
      elim id [
        | none ↦ known
        | some bat_id ↦ record known {
          db = store (sample_row bat_id ts cells pack) (cell_rows cells) known.db;
        }
      ]
