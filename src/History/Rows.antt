-- ===== src/History/Rows.antt =====
-- The rows of the tables `samples` and `sample_cells`: what History::append of src/history.cpp binds,
-- and what History::range_core reads from the columns. A column holds an integer.
pub mod RoundTrip
use bms_bridge.Base.{
  ℕ, zero, suc, ◌+◌, ◌/◌, ◌%◌, ℤ, pos, List, [], ◌∷◌, Bool, true, false, ◌==◌, not, get_or,
  if◌then◌else◌, Bytes, wrap, u16_of, u32_of, i16_of, i32_of,
}
use bms_bridge.Jk.Types.{JkCellInfo, JkPackInfo}

-- A time is in milliseconds of the system clock.
pub record TelemetrySample : Type 0 where
  pub battery_id : Bytes
  pub ts : ℕ
  pub cells : JkCellInfo
  pub pack : JkPackInfo

pub record SampleRow : Type 0 where
  pub battery_id : ℕ
  pub ts_ms : ℕ
  pub voltage_mv : ℤ
  pub current_ma : ℤ
  pub soc_pct : ℤ
  pub remaining_mah : ℤ
  pub total_mah : ℤ
  pub cycle_count : ℤ
  pub temp1_dc : ℤ
  pub temp2_dc : ℤ
  pub mos_temp_dc : ℤ
  pub flags : ℤ
  pub errors_bitmask : ℤ
  pub avg_cell_mv : ℤ
  pub diff_cell_mv : ℤ
  pub max_cell_idx : ℤ
  pub min_cell_idx : ℤ
  pub balance_current_ma : ℤ

pub record CellRow : Type 0 where
  pub cell_idx : ℕ
  pub voltage_mv : ℤ
  pub resistance_uohm : ℤ

abbrev pub flag : Bool → ℕ → ℕ
flag b bit = if b then bit else 0

-- The bits are apart, so that they are added.
unfoldable pub pack_flags : JkPackInfo → ℕ
pack_flags p = flag p.charging_enabled 1 + flag p.discharging_enabled 2 + flag p.balancer_enabled 4

unfoldable pub sample_row : ℕ → ℕ → JkCellInfo → JkPackInfo → SampleRow
unfolding pack_flags
sample_row bat_id ts_ms cells pack = record {
  battery_id = bat_id;
  ts_ms = ts_ms;
  voltage_mv = pack.voltage_mv;
  current_ma = pack.current_ma;
  soc_pct = pos pack.state_of_charge_pct;
  remaining_mah = pos pack.remaining_capacity_mah;
  total_mah = pos pack.total_capacity_mah;
  cycle_count = pos pack.cycle_count;
  temp1_dc = pack.battery_temp1_dc;
  temp2_dc = pack.battery_temp2_dc;
  mos_temp_dc = pack.power_tube_temp_dc;
  flags = pos (pack_flags pack);
  errors_bitmask = pos pack.errors_bitmask;
  avg_cell_mv = pos cells.average_voltage_mv;
  diff_cell_mv = pos cells.voltage_diff_mv;
  max_cell_idx = pos cells.max_voltage_cell_idx;
  min_cell_idx = pos cells.min_voltage_cell_idx;
  balance_current_ma = pack.balance_current_ma;
}

-- The rows of the cells from number `k` on; a resistance that is missing is 0.
unfoldable pub cell_rows_from : ℕ → List ℕ → List ℕ → List CellRow
cell_rows_from k [] rs = []
cell_rows_from k (v ∷ vs) rs =
    record { cell_idx = k; voltage_mv = pos v; resistance_uohm = pos (get_or rs k 0) }
    ∷ cell_rows_from (suc k) vs rs

unfoldable pub cell_rows : JkCellInfo → List CellRow
unfolding cell_rows_from
cell_rows cells = cell_rows_from 0 cells.voltages_mv cells.resistance_uohm

abbrev pub column_voltages : List CellRow → List ℕ
column_voltages [] = []
column_voltages (c ∷ cs) = u16_of c.voltage_mv ∷ column_voltages cs

abbrev pub column_resistances : List CellRow → List ℕ
column_resistances [] = []
column_resistances (c ∷ cs) = u16_of c.resistance_uohm ∷ column_resistances cs

-- static_cast<uint8_t> and static_cast<uint32_t> of a column.
abbrev u8_of : ℤ → ℕ
u8_of = wrap 256

-- (flags & bit) != 0, for a power of two.
abbrev pub has_bit : ℕ → ℕ → Bool
has_bit bit flags = not (flags / bit % 2 == 0)

unfoldable pub pack_of_row : SampleRow → JkPackInfo
pack_of_row r = record {
  voltage_mv = i32_of (u32_of r.voltage_mv);
  current_ma = i32_of (u32_of r.current_ma);
  state_of_charge_pct = u8_of r.soc_pct;
  remaining_capacity_mah = u32_of r.remaining_mah;
  total_capacity_mah = u32_of r.total_mah;
  cycle_count = u32_of r.cycle_count;
  battery_temp1_dc = i16_of (u16_of r.temp1_dc);
  battery_temp2_dc = i16_of (u16_of r.temp2_dc);
  power_tube_temp_dc = i16_of (u16_of r.mos_temp_dc);
  charging_enabled = has_bit 1 (u32_of r.flags);
  discharging_enabled = has_bit 2 (u32_of r.flags);
  balancer_enabled = has_bit 4 (u32_of r.flags);
  balance_current_ma = i16_of (u16_of r.balance_current_ma);
  errors_bitmask = u16_of r.errors_bitmask;
}

unfoldable pub cells_of_rows : SampleRow → List CellRow → JkCellInfo
cells_of_rows r cs = record {
  voltages_mv = column_voltages cs;
  resistance_uohm = column_resistances cs;
  average_voltage_mv = u16_of r.avg_cell_mv;
  voltage_diff_mv = u16_of r.diff_cell_mv;
  max_voltage_cell_idx = u8_of r.max_cell_idx;
  min_voltage_cell_idx = u8_of r.min_cell_idx;
}

unfoldable pub sample_of : Bytes → SampleRow → List CellRow → TelemetrySample
unfolding pack_of_row cells_of_rows
sample_of name r cs = record {
  battery_id = name;
  ts = r.ts_ms;
  cells = cells_of_rows r cs;
  pack = pack_of_row r;
}
