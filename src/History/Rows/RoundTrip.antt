-- ===== src/History/Rows/RoundTrip.antt =====
-- A sample is read back as it was stored.
use bms_bridge.Base.{
  ℕ, zero, suc, ◌+◌, ◌%◌, ◌≡◌, refl, ap, List, [], ◌∷◌, Bool, true, false, get_or, drop, length, ℤ,
  pos, negsuc, i32_of, u32_of, i16_of-u16_of, IsByte, IsWord, IsU32, IsI16, IsI32, AreWords, Bytes,
  arith,
}
use bms_bridge.Jk.Types.{JkCellInfo, JkPackInfo}
use bms_bridge.History.Rows.{
  sample_row, cell_rows_from, cell_rows, column_voltages, column_resistances, pack_flags,
  pack_of_row, cells_of_rows, sample_of, has_bit, flag,
}

-- The values that the fields' types can hold, with a resistance for each cell.
pub record IsPack (p : JkPackInfo) : Type 0 where
  pub voltage_mv : IsI32 p.voltage_mv
  pub current_ma : IsI32 p.current_ma
  pub state_of_charge_pct : IsByte p.state_of_charge_pct
  pub remaining_capacity_mah : IsU32 p.remaining_capacity_mah
  pub total_capacity_mah : IsU32 p.total_capacity_mah
  pub cycle_count : IsU32 p.cycle_count
  pub battery_temp1_dc : IsI16 p.battery_temp1_dc
  pub battery_temp2_dc : IsI16 p.battery_temp2_dc
  pub power_tube_temp_dc : IsI16 p.power_tube_temp_dc
  pub balance_current_ma : IsI16 p.balance_current_ma
  pub errors_bitmask : IsWord p.errors_bitmask

pub record IsCells (c : JkCellInfo) : Type 0 where
  pub voltages_mv : AreWords c.voltages_mv
  pub resistance_uohm : AreWords c.resistance_uohm
  pub paired : length c.resistance_uohm ≡ length c.voltages_mv
  pub average_voltage_mv : IsWord c.average_voltage_mv
  pub voltage_diff_mv : IsWord c.voltage_diff_mv
  pub max_voltage_cell_idx : IsByte c.max_voltage_cell_idx
  pub min_voltage_cell_idx : IsByte c.min_voltage_cell_idx

i32_of-u32_of : (z : ℤ) → IsI32 z → i32_of (u32_of z) ≡ z
i32_of-u32_of (pos n) h = ground arith
i32_of-u32_of (negsuc n) h = ground arith

voltages-rows :
    (k : ℕ) (vs rs : List ℕ) → AreWords vs → column_voltages (cell_rows_from k vs rs) ≡ vs
unfolding cell_rows_from
voltages-rows k [] rs h = refl
voltages-rows k (v ∷ vs) rs h = ground (arith, voltages-rows (suc k) vs rs h.1)

drop-get_or :
    (k : ℕ) (rs : List ℕ) (n : ℕ)
    → length (drop k rs) ≡ suc n
    → drop k rs ≡ get_or rs k 0 ∷ drop (suc k) rs
drop-get_or zero [] n e = absurd (omega arith)
drop-get_or zero (r ∷ rs) n e = refl
drop-get_or (suc k) [] n e = absurd (omega arith)
drop-get_or (suc k) (r ∷ rs) n e = drop-get_or k rs n e

get_or-IsWord : (rs : List ℕ) (k : ℕ) → AreWords rs → IsWord (get_or rs k 0)
get_or-IsWord [] k h = omega arith
get_or-IsWord (r ∷ rs) zero h = h.0
get_or-IsWord (r ∷ rs) (suc k) h = get_or-IsWord rs k h.1

length-zero : (rs : List ℕ) → length rs ≡ 0 → [] ≡ rs
length-zero [] e = refl
length-zero (r ∷ rs) e = absurd (omega arith)

resistances-rows :
    (k : ℕ) (vs rs : List ℕ)
    → AreWords rs
    → length (drop k rs) ≡ length vs
    → column_resistances (cell_rows_from k vs rs) ≡ drop k rs
unfolding cell_rows_from
resistances-rows k [] rs h e = length-zero (drop k rs) e
resistances-rows k (v ∷ vs) rs h e =
    let step = drop-get_or k rs (length vs) e in
    let word : get_or rs k 0 % 65536 ≡ get_or rs k 0 = omega (arith, get_or-IsWord rs k h) in
    rw step (λ i. word i ∷ resistances-rows (suc k) vs rs h (omega (arith, ap length step)) i)

flags-bits :
    (a b c : Bool)
    → let f = (flag a 1 + flag b 2 + flag c 4) % 4294967296 in
      (has_bit 1 f ≡ a) × (has_bit 2 f ≡ b) × (has_bit 4 f ≡ c)
flags-bits true true true = (refl, refl, refl)
flags-bits true true false = (refl, refl, refl)
flags-bits true false true = (refl, refl, refl)
flags-bits true false false = (refl, refl, refl)
flags-bits false true true = (refl, refl, refl)
flags-bits false true false = (refl, refl, refl)
flags-bits false false true = (refl, refl, refl)
flags-bits false false false = (refl, refl, refl)

pack_of_row-sample_row :
    (bat_id ts_ms : ℕ) (c : JkCellInfo) (p : JkPackInfo)
    → IsPack p
    → pack_of_row (sample_row bat_id ts_ms c p) ≡ p
unfolding pack_of_row sample_row pack_flags
pack_of_row-sample_row bat_id ts_ms c p v =
    let voltage = i32_of-u32_of p.voltage_mv v.voltage_mv in
    let current = i32_of-u32_of p.current_ma v.current_ma in
    let soc : p.state_of_charge_pct % 256 ≡ p.state_of_charge_pct = omega arith in
    let remaining : p.remaining_capacity_mah % 4294967296 ≡ p.remaining_capacity_mah =
      omega arith in
    let total : p.total_capacity_mah % 4294967296 ≡ p.total_capacity_mah = omega arith in
    let cycles : p.cycle_count % 4294967296 ≡ p.cycle_count = omega arith in
    let temp1 = i16_of-u16_of p.battery_temp1_dc v.battery_temp1_dc in
    let temp2 = i16_of-u16_of p.battery_temp2_dc v.battery_temp2_dc in
    let mos = i16_of-u16_of p.power_tube_temp_dc v.power_tube_temp_dc in
    let balance = i16_of-u16_of p.balance_current_ma v.balance_current_ma in
    let errors : p.errors_bitmask % 65536 ≡ p.errors_bitmask = omega arith in
    let bits = flags-bits p.charging_enabled p.discharging_enabled p.balancer_enabled in
    λ i. record {
      voltage_mv = voltage i;
      current_ma = current i;
      state_of_charge_pct = soc i;
      remaining_capacity_mah = remaining i;
      total_capacity_mah = total i;
      cycle_count = cycles i;
      battery_temp1_dc = temp1 i;
      battery_temp2_dc = temp2 i;
      power_tube_temp_dc = mos i;
      charging_enabled = bits.0 i;
      discharging_enabled = bits.1 i;
      balancer_enabled = bits.2 i;
      balance_current_ma = balance i;
      errors_bitmask = errors i;
    }

cells_of_rows-cell_rows :
    (bat_id ts_ms : ℕ) (c : JkCellInfo) (p : JkPackInfo)
    → IsCells c
    → cells_of_rows (sample_row bat_id ts_ms c p) (cell_rows c) ≡ c
unfolding cells_of_rows sample_row cell_rows
cells_of_rows-cell_rows bat_id ts_ms c p v =
    let average : c.average_voltage_mv % 65536 ≡ c.average_voltage_mv = omega arith in
    let diff : c.voltage_diff_mv % 65536 ≡ c.voltage_diff_mv = omega arith in
    let highest : c.max_voltage_cell_idx % 256 ≡ c.max_voltage_cell_idx = omega arith in
    let lowest : c.min_voltage_cell_idx % 256 ≡ c.min_voltage_cell_idx = omega arith in
    let voltages = voltages-rows 0 c.voltages_mv c.resistance_uohm v.voltages_mv in
    let resistances =
      resistances-rows 0 c.voltages_mv c.resistance_uohm v.resistance_uohm v.paired in
    λ i. record {
      voltages_mv = voltages i;
      resistance_uohm = resistances i;
      average_voltage_mv = average i;
      voltage_diff_mv = diff i;
      max_voltage_cell_idx = highest i;
      min_voltage_cell_idx = lowest i;
    }

-- Telemetry whose fields hold values of their types, with a resistance for each cell: the sample
-- that is read from the rows that it is stored in is the same, in every field.
pub sample_of-rows :
    (bat_id : ℕ) (name : Bytes) (ts_ms : ℕ) (c : JkCellInfo) (p : JkPackInfo)
    → IsCells c
    → IsPack p
    → sample_of name (sample_row bat_id ts_ms c p) (cell_rows c)
      ≡ record { battery_id = name; ts = ts_ms; cells = c; pack = p }
unfolding sample_of sample_row
sample_of-rows bat_id name ts_ms c p vc vp =
    let cells = cells_of_rows-cell_rows bat_id ts_ms c p vc in
    let pack = pack_of_row-sample_row bat_id ts_ms c p vp in
    λ i. record { battery_id = name; ts = ts_ms; cells = cells i; pack = pack i }
