-- ===== src/Pylontech/Responder.antt =====
-- The slave's answers: the responders of src/pylontech.cpp, from battery telemetry to a frame.
--
-- int32_t and int16_t values are integers; conversions between widths wrap by `u16`, `u16_of`.
pub mod Capacity
pub mod Answers
pub mod Normal
use bms_bridge.Base.{
  ℕ, ◌+◌, ◌-◌, ◌*◌, ◌/◌, ◌≤◌, List, [], ◌∷◌, ltb, leb, if◌then◌else◌, length, replicate, min, Bytes,
  Bool, false, u8, u16, u32, u16_of, ℤ, pos, negsuc, neg, pos_part, ◌+ℤ◌, div_ℤ,
}
use bms_bridge.Jk.Types.{JkCellInfo, JkPackInfo, JkSettings}
use bms_bridge.Pylontech.Frame.{PylontechFrame, build_pylontech, default_frame}
use bms_bridge.Pylontech.Payload.Analog.{AnalogResponse}
use bms_bridge.Pylontech.Payload.Alarm.{AlarmResponse}
use bms_bridge.Pylontech.Payload.SystemParameter.{SystemParameterResponse}
use bms_bridge.Pylontech.Payload.ChargeManagement.{ChargeManagementResponse}
use bms_bridge.Pylontech.Payload

-- Master-side request builders.
unfoldable pub build_analog_request : ℕ → Bytes
build_analog_request adr =
    build_pylontech (record default_frame { adr = adr; cid2 = 0x42; info = adr ∷ [] })

unfoldable pub build_system_param_request : ℕ → Bytes
build_system_param_request adr = build_pylontech (record default_frame { adr = adr; cid2 = 0x47 })

unfoldable pub echoed_cmd_value : PylontechFrame → ℕ
echoed_cmd_value req = elim req.info [ [] ↦ req.adr | b ∷ bs ↦ b ]

abbrev pub ok_response : PylontechFrame → PylontechFrame
ok_response req = record { ver = req.ver; adr = req.adr; cid1 = 0x46; cid2 = 0x00; info = [] }

-- JK reports 0.1 °C; Pylontech expects Kelvin × 10.
unfoldable pub dc_to_k10 : ℤ → ℕ
dc_to_k10 dc = u16_of (dc +ℤ pos 2731)

unfoldable pub clamp_u16 : ℕ → ℕ
clamp_u16 v = u16 (min v 0xFFFF)

-- `v > 32767` fails for every negative value, and `v < -32768` for every other one.
unfoldable pub clamp_i16 : ℤ → ℤ
clamp_i16 (pos n) = if ltb 32767 n then pos 32767 else pos n
clamp_i16 (negsuc n) = if ltb 32767 n then negsuc 32767 else negsuc n

pub record ScaledCapacity : Type 0 where
  pub total_mah : ℕ
  pub remain_mah : ℕ

abbrev pub cap_u16_max : ℕ
cap_u16_max = 65000

-- The sum is taken in uint32_t. (A total within 65000 of 2 ^ 32 makes the divisor 0, which the
-- source does not guard; `/` is 0 there.)
unfoldable pub scale_capacity_to_u16 : ℕ → ℕ → ScaledCapacity
scale_capacity_to_u16 total_mah remain_mah =
    if leb total_mah cap_u16_max
    then record { total_mah = u16 total_mah; remain_mah = u16 remain_mah }
    else let scale : ℕ = u32 (total_mah + cap_u16_max - 1) / cap_u16_max in
      record { total_mah = u16 (total_mah / scale); remain_mah = u16 (remain_mah / scale) }

unfoldable pub module_count_for_capacity : ℕ → ℕ
module_count_for_capacity total_capacity_mah =
    if leb total_capacity_mah cap_u16_max
    then 1
    else let n : ℕ = u32 (total_capacity_mah + cap_u16_max - 1) / cap_u16_max in u8 (min n 0xFF)

-- The uint32_t product cannot overflow.
unfoldable pub module_voltage_from_cell : ℕ → ℕ → ℕ
unfolding clamp_u16
module_voltage_from_cell cell_mv cell_count = clamp_u16 (cell_mv * cell_count)

-- The payload of build_analog_response.
unfoldable pub analog_response : PylontechFrame → JkCellInfo → JkPackInfo → AnalogResponse
analog_response req cells pack = record {
  infoflag = 0;
  command = echoed_cmd_value req;
  cell_voltages_mv = cells.voltages_mv;
  temperatures_k10 =
      dc_to_k10 pack.battery_temp1_dc
      ∷ dc_to_k10 pack.battery_temp2_dc
      ∷ dc_to_k10 pack.power_tube_temp_dc
      ∷ [];
  current_01a = clamp_i16 (div_ℤ pack.current_ma 100);
  module_voltage_mv = clamp_u16 (pos_part pack.voltage_mv);
  remain_capacity_mah =
      (scale_capacity_to_u16 pack.total_capacity_mah pack.remaining_capacity_mah).remain_mah;
  user_defined_count = 2;
  total_capacity_mah =
      (scale_capacity_to_u16 pack.total_capacity_mah pack.remaining_capacity_mah).total_mah;
  cycle_count = clamp_u16 pack.cycle_count;
}

unfoldable pub build_analog_response : PylontechFrame → JkCellInfo → JkPackInfo → Bytes
build_analog_response req cells pack =
    let f = ok_response req in
    build_pylontech
      (record f { info = Payload.Analog.serialize (analog_response req cells pack) f.info })

-- The payload of build_alarm_response.
unfoldable pub alarm_response : PylontechFrame → JkCellInfo → AlarmResponse
alarm_response req cells = record {
  dataflag = 0;
  command = echoed_cmd_value req;
  cell_voltage_states = replicate (length cells.voltages_mv) 0;
  temperature_states = replicate 3 0;
  charge_current_state = 0;
  module_voltage_state = 0;
  discharge_current_state = 0;
  status_byte_1 = 0x00;
  status_byte_2 = 0x0E;
  status_byte_3 = 0x00;
  cell_error_states_1_8 = 0;
  cell_error_states_9_16 = 0;
}

unfoldable pub build_alarm_response : PylontechFrame → JkCellInfo → Bytes
build_alarm_response req cells =
    let f = ok_response req in
    build_pylontech (record f { info = Payload.Alarm.serialize (alarm_response req cells) f.info })

-- clamp_i16 of a current limit, and of its negation. The quotient is below 2 ^ 31.
abbrev charge_limit : ℕ → ℤ
charge_limit ma = clamp_i16 (pos (ma / 100))

abbrev discharge_limit : ℕ → ℤ
discharge_limit ma = clamp_i16 (neg (ma / 100))

-- The payload of build_system_param_response.
unfoldable pub system_param_response : JkSettings → SystemParameterResponse
system_param_response limits = record {
  infoflag = 0;
  cell_high_voltage_limit_mv = limits.cell_ovp_mv;
  cell_low_voltage_limit_mv = limits.cell_uvpr_mv;
  cell_under_voltage_limit_mv = limits.cell_uvp_mv;
  charge_high_temp_k10 = dc_to_k10 limits.charge_otp_dc;
  charge_low_temp_k10 = dc_to_k10 limits.charge_utp_dc;
  charge_current_limit_01a = charge_limit limits.max_charge_current_ma;
  module_high_voltage_limit_mv = module_voltage_from_cell limits.cell_ovp_mv limits.cell_count;
  module_low_voltage_limit_mv = module_voltage_from_cell limits.cell_uvpr_mv limits.cell_count;
  module_under_voltage_limit_mv = module_voltage_from_cell limits.cell_uvp_mv limits.cell_count;
  discharge_high_temp_k10 = dc_to_k10 limits.discharge_otp_dc;
  discharge_low_temp_k10 = dc_to_k10 limits.charge_utp_dc;
  discharge_current_limit_01a = discharge_limit limits.max_discharge_current_ma;
}

unfoldable pub build_system_param_response : PylontechFrame → JkSettings → Bytes
build_system_param_response req limits =
    let f = ok_response req in
    build_pylontech
      (record f { info = Payload.SystemParameter.serialize (system_param_response limits) f.info })

-- The payload of build_chgmgmt_response.
unfoldable pub chgmgmt_response :
    PylontechFrame → JkPackInfo → JkSettings → ChargeManagementResponse
chgmgmt_response req pack limits = record {
  command = echoed_cmd_value req;
  charge_voltage_limit_mv = module_voltage_from_cell limits.cell_ovp_mv limits.cell_count;
  discharge_voltage_limit_mv = module_voltage_from_cell limits.cell_uvpr_mv limits.cell_count;
  charge_current_limit_01a = charge_limit limits.max_charge_current_ma;
  discharge_current_limit_01a = discharge_limit limits.max_discharge_current_ma;
  charge_enabled = pack.charging_enabled;
  discharge_enabled = pack.discharging_enabled;
  request_charge_immediately = false;
  request_charge_immediately_low = false;
  request_full_charge = false;
}

unfoldable pub build_chgmgmt_response : PylontechFrame → JkPackInfo → JkSettings → Bytes
build_chgmgmt_response req pack limits =
    let f = ok_response req in
    build_pylontech (record f {
      info = Payload.ChargeManagement.serialize (chgmgmt_response req pack limits) f.info;
    })
