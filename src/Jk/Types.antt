-- ===== src/Jk/Types.antt =====
-- The telemetry structs of include/jk_protocol.hpp, with their member initialisers. Unsigned
-- fields are numbers, signed ones integers, strings their bytes.
use bms_bridge.Base.{ℕ, ℤ, pos, Bool, false, List, [], Bytes}

pub record JkDeviceInfo : Type 0 where
  pub vendor_id : Bytes
  pub hardware_version : Bytes
  pub firmware_version : Bytes
  pub uptime_s : ℕ
  pub power_on_count : ℕ
  pub device_name : Bytes
  pub login_password : Bytes
  pub manufacturing_date : Bytes
  pub serial_number : Bytes
  pub user_data_1 : Bytes
  pub settings_password : Bytes
  pub user_data_2 : Bytes
  pub uart1_protocol : ℕ
  pub can_protocol : ℕ
  pub uart2_protocol : ℕ
  pub lcd_buzzer_trigger_protocol : ℕ
  pub lcd_buzzer_trigger_value : ℕ
  pub lcd_buzzer_release_value : ℕ
  pub data_store_period_s : ℕ
  pub rcv_time_01h : ℕ
  pub rfv_time_01h : ℕ
  pub emerg_time : ℕ
  pub rebulk_soc_pct : ℕ

abbrev pub default_jk_device_info : JkDeviceInfo
default_jk_device_info = record {
  vendor_id = [];
  hardware_version = [];
  firmware_version = [];
  uptime_s = 0;
  power_on_count = 0;
  device_name = [];
  login_password = [];
  manufacturing_date = [];
  serial_number = [];
  user_data_1 = [];
  settings_password = [];
  user_data_2 = [];
  uart1_protocol = 0;
  can_protocol = 0;
  uart2_protocol = 0;
  lcd_buzzer_trigger_protocol = 0;
  lcd_buzzer_trigger_value = 0;
  lcd_buzzer_release_value = 0;
  data_store_period_s = 0;
  rcv_time_01h = 0;
  rfv_time_01h = 0;
  emerg_time = 0;
  rebulk_soc_pct = 0;
}

pub record JkCellInfo : Type 0 where
  pub voltages_mv : List ℕ
  pub resistance_uohm : List ℕ
  pub average_voltage_mv : ℕ
  pub voltage_diff_mv : ℕ
  pub max_voltage_cell_idx : ℕ
  pub min_voltage_cell_idx : ℕ

abbrev pub default_jk_cell_info : JkCellInfo
default_jk_cell_info = record {
  voltages_mv = [];
  resistance_uohm = [];
  average_voltage_mv = 0;
  voltage_diff_mv = 0;
  max_voltage_cell_idx = 0;
  min_voltage_cell_idx = 0;
}

pub record JkSettings : Type 0 where
  pub smart_sleep_mv : ℕ
  pub cell_uvp_mv : ℕ
  pub cell_uvpr_mv : ℕ
  pub cell_ovp_mv : ℕ
  pub cell_ovpr_mv : ℕ
  pub balance_trigger_mv : ℕ
  pub soc_100_mv : ℕ
  pub soc_0_mv : ℕ
  pub request_charge_mv : ℕ
  pub request_float_mv : ℕ
  pub power_off_mv : ℕ
  pub max_charge_current_ma : ℕ
  pub charge_ocp_delay_s : ℕ
  pub charge_ocp_recovery_s : ℕ
  pub max_discharge_current_ma : ℕ
  pub discharge_ocp_delay_s : ℕ
  pub discharge_ocp_recovery_s : ℕ
  pub scp_recovery_s : ℕ
  pub max_balance_current_ma : ℕ
  pub charge_otp_dc : ℤ
  pub charge_otp_recovery_dc : ℤ
  pub discharge_otp_dc : ℤ
  pub discharge_otp_recovery_dc : ℤ
  pub charge_utp_dc : ℤ
  pub charge_utp_recovery_dc : ℤ
  pub mosfet_otp_dc : ℤ
  pub mosfet_otp_recovery_dc : ℤ
  pub cell_count : ℕ
  pub charging_switch_on : Bool
  pub discharging_switch_on : Bool
  pub balancer_switch_on : Bool
  pub nominal_capacity_mah : ℕ
  pub scp_delay_us : ℕ
  pub start_balance_mv : ℕ

abbrev pub default_jk_settings : JkSettings
default_jk_settings = record {
  smart_sleep_mv = 0;
  cell_uvp_mv = 0;
  cell_uvpr_mv = 0;
  cell_ovp_mv = 0;
  cell_ovpr_mv = 0;
  balance_trigger_mv = 0;
  soc_100_mv = 0;
  soc_0_mv = 0;
  request_charge_mv = 0;
  request_float_mv = 0;
  power_off_mv = 0;
  max_charge_current_ma = 0;
  charge_ocp_delay_s = 0;
  charge_ocp_recovery_s = 0;
  max_discharge_current_ma = 0;
  discharge_ocp_delay_s = 0;
  discharge_ocp_recovery_s = 0;
  scp_recovery_s = 0;
  max_balance_current_ma = 0;
  charge_otp_dc = pos 0;
  charge_otp_recovery_dc = pos 0;
  discharge_otp_dc = pos 0;
  discharge_otp_recovery_dc = pos 0;
  charge_utp_dc = pos 0;
  charge_utp_recovery_dc = pos 0;
  mosfet_otp_dc = pos 0;
  mosfet_otp_recovery_dc = pos 0;
  cell_count = 0;
  charging_switch_on = false;
  discharging_switch_on = false;
  balancer_switch_on = false;
  nominal_capacity_mah = 0;
  scp_delay_us = 0;
  start_balance_mv = 0;
}

pub record JkPackInfo : Type 0 where
  pub voltage_mv : ℤ
  pub current_ma : ℤ
  pub state_of_charge_pct : ℕ
  pub remaining_capacity_mah : ℕ
  pub total_capacity_mah : ℕ
  pub cycle_count : ℕ
  pub battery_temp1_dc : ℤ
  pub battery_temp2_dc : ℤ
  pub power_tube_temp_dc : ℤ
  pub charging_enabled : Bool
  pub discharging_enabled : Bool
  pub balancer_enabled : Bool
  pub balance_current_ma : ℤ
  pub errors_bitmask : ℕ

abbrev pub default_jk_pack_info : JkPackInfo
default_jk_pack_info = record {
  voltage_mv = pos 0;
  current_ma = pos 0;
  state_of_charge_pct = 0;
  remaining_capacity_mah = 0;
  total_capacity_mah = 0;
  cycle_count = 0;
  battery_temp1_dc = pos 0;
  battery_temp2_dc = pos 0;
  power_tube_temp_dc = pos 0;
  charging_enabled = false;
  discharging_enabled = false;
  balancer_enabled = false;
  balance_current_ma = pos 0;
  errors_bitmask = 0;
}
