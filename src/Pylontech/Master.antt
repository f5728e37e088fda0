-- ===== src/Pylontech/Master.antt =====
-- The bridge as a Pylontech master: src/pylontech_master.cpp.
pub mod CellStats
pub mod Routing
use bms_bridge.Base.{
  ℕ, ◌+◌, ◌-◌, ◌*◌, ◌/◌, ◌%◌, List, [], ◌∷◌, ◌++◌, Option, none, some, Bool, true, false, not, ltb,
  ◌==◌, if◌then◌else◌, length, get_elem?, min, Bytes, u8, u16, u32, ℤ, pos, negsuc, pos_part,
  neg_part, ◌-ℤ◌, mul_ℤ, i16_of, u16_of, u32_of,
}
use bms_bridge.Jk.Types.{
  JkCellInfo, JkPackInfo, JkSettings, default_jk_cell_info, default_jk_pack_info,
  default_jk_settings,
}
use bms_bridge.Battery.Protocol.{Telemetry, Parsed, nothing_parsed}
use bms_bridge.Pylontech.Frame.{PylontechFrame}
use bms_bridge.Pylontech.Payload
use bms_bridge.Pylontech.Payload.Analog.{AnalogResponse}
use bms_bridge.Pylontech.Payload.SystemParameter.{SystemParameterResponse}
use bms_bridge.Pylontech.Responder.{build_analog_request, build_system_param_request}
use bms_bridge.Pylontech.Stream.{receive}

-- Kelvin × 10 to 0.1 °C: the difference of two `int`s, cast to int16_t.
unfoldable pub k10_to_dc : ℕ → ℤ
k10_to_dc k10 = i16_of (u16_of (pos k10 -ℤ pos 2731))

-- The locals of the loop in fill_cell_stats.
pub record Stats : Type 0 where
  pub sum : ℕ
  pub lo : ℕ
  pub hi : ℕ
  pub lo_idx : ℕ
  pub hi_idx : ℕ

-- One round, at index `i`.
unfoldable pub stats_step : ℕ → ℕ → Stats → Stats
stats_step i v s = record {
  sum = u32 (s.sum + v);
  lo = if ltb v s.lo then v else s.lo;
  hi = if ltb s.hi v then v else s.hi;
  lo_idx = if ltb v s.lo then u8 i else s.lo_idx;
  hi_idx = if ltb s.hi v then u8 i else s.hi_idx;
}

unfoldable pub stats_loop : ℕ → List ℕ → Stats → Stats
stats_loop i [] s = s
stats_loop i (v ∷ vs) s = stats_loop (i + 1) vs (stats_step i v s)

-- The initial values: both ends are the first voltage.
abbrev pub stats_of : ℕ → List ℕ → Stats
stats_of v vs = stats_loop 0 (v ∷ vs) (record { sum = 0; lo = v; hi = v; lo_idx = 0; hi_idx = 0 })

unfoldable pub fill_cell_stats : JkCellInfo → JkCellInfo
fill_cell_stats c = elim c.voltages_mv [
  | [] ↦ c
  | v ∷ vs ↦ record c {
    average_voltage_mv = u16 ((stats_of v vs).sum / length (v ∷ vs));
    voltage_diff_mv = u16_of (pos (stats_of v vs).hi -ℤ pos (stats_of v vs).lo);
    max_voltage_cell_idx = (stats_of v vs).hi_idx;
    min_voltage_cell_idx = (stats_of v vs).lo_idx;
  }
]

unfoldable pub temperature_at : List ℕ → ℕ → ℤ
temperature_at ts i = elim (get_elem? ts i) [ none ↦ pos 0 | some t ↦ k10_to_dc t ]

unfoldable pub soc_pct : ℕ → ℕ → ℕ
soc_pct remain total = if total == 0 then 0 else u8 (min 100 (remain * 100 / total))

-- The branch for CID2 = 0x42. Fields that no payload carries keep their defaults.
unfoldable pub telemetry_of : AnalogResponse → Telemetry
telemetry_of a = record {
  cells = fill_cell_stats (record default_jk_cell_info { voltages_mv = a.cell_voltages_mv });
  pack = record default_jk_pack_info {
    voltage_mv = pos a.module_voltage_mv;
    current_ma = mul_ℤ a.current_01a 100;
    battery_temp1_dc = temperature_at a.temperatures_k10 0;
    battery_temp2_dc = temperature_at a.temperatures_k10 1;
    power_tube_temp_dc = temperature_at a.temperatures_k10 2;
    remaining_capacity_mah = a.remain_capacity_mah;
    total_capacity_mah = a.total_capacity_mah;
    cycle_count = a.cycle_count;
    state_of_charge_pct = soc_pct a.remain_capacity_mah a.total_capacity_mah;
  };
}

-- The branch for CID2 = 0x47.
unfoldable pub settings_of : SystemParameterResponse → ℕ → JkSettings
settings_of sp last_cell_count = record default_jk_settings {
  cell_ovp_mv = sp.cell_high_voltage_limit_mv;
  cell_uvpr_mv = sp.cell_low_voltage_limit_mv;
  cell_uvp_mv = sp.cell_under_voltage_limit_mv;
  charge_otp_dc = k10_to_dc sp.charge_high_temp_k10;
  charge_utp_dc = k10_to_dc sp.charge_low_temp_k10;
  discharge_otp_dc = k10_to_dc sp.discharge_high_temp_k10;
  max_charge_current_ma = u32 (u32_of sp.charge_current_limit_01a * 100);
  max_discharge_current_ma =
      u32
        ((pos_part sp.discharge_current_limit_01a + neg_part sp.discharge_current_limit_01a) * 100);
  cell_count = last_cell_count;
}

-- The object, and the value that `feed` returns, while the loop runs.
pub record Progress : Type 0 where
  pub last_cell_count : ℕ
  pub out : Parsed

unfoldable pub handle_analog : Progress → AnalogResponse × Bool → Progress
handle_analog s (a, ok) = if not ok then s else record {
  last_cell_count = u8 (length a.cell_voltages_mv);
  out = record { telemetry = some (telemetry_of a); settings = s.out.settings };
}

unfoldable pub handle_system_param : Progress → SystemParameterResponse × Bool → Progress
handle_system_param s (sp, ok) = if not ok then s else record s {
  out = record { telemetry = s.out.telemetry; settings = some (settings_of sp s.last_cell_count) };
}

-- The loop's body behind the erasure of a frame.
unfoldable pub handle_frame : ℕ → Progress → PylontechFrame → Progress
handle_frame wire_adr s f =
    if not (f.adr == wire_adr)
    then s
    else if f.cid2 == 0x42
    then handle_analog s (Payload.Analog.deserialize f.info)
    else if f.cid2 == 0x47
    then handle_system_param s (Payload.SystemParameter.deserialize f.info)
    else s

pub record PylontechMasterProtocol : Type 0 where
  pub wire_adr : ℕ
  pub rx : Bytes
  pub last_cell_count : ℕ

unfoldable pub new_master : ℕ → PylontechMasterProtocol
new_master wire_adr = record { wire_adr = wire_adr; rx = []; last_cell_count = 0 }

unfoldable pub reset : PylontechMasterProtocol → PylontechMasterProtocol
reset m = record m { rx = [] }

unfoldable pub poll_request : PylontechMasterProtocol → Bytes
poll_request m = build_analog_request m.wire_adr

unfoldable pub settings_request : PylontechMasterProtocol → Bytes
settings_request m = build_system_param_request m.wire_adr

unfoldable pub feed : PylontechMasterProtocol → Bytes → PylontechMasterProtocol × Parsed
feed m bytes =
    let start : Progress = record { last_cell_count = m.last_cell_count; out = nothing_parsed } in
    let (s, rx) = receive (handle_frame m.wire_adr) start (m.rx ++ bytes) in
    (record m { rx = rx; last_cell_count = s.last_cell_count }, s.out)
