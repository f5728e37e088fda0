-- ===== src/Jk/Parse.antt =====
-- The response parsers of src/jk_protocol.cpp. Each has checked that the frame holds 300 bytes and
-- starts with the magic before it reads a field.
use bms_bridge.Base.{
  ℕ, suc, zero, ◌+◌, ◌-◌, ◌*◌, List, [], ◌∷◌, Option, none, some, Bool, false, not, ltb, leb, ◌==◌,
  ◌&&◌, if◌then◌else◌, length, drop, Bytes, u8, u16, u32, ℤ, i16_of, i32_of, u16_of,
}
use Prim.Native.Nat.{bit_and}
use bms_bridge.Jk.Types.{JkDeviceInfo, JkCellInfo, JkPackInfo, JkSettings}
use bms_bridge.Jk.Wire.{
  response_size, frame_type_settings, frame_type_cell_info, frame_type_device_info, byte_at, le16,
  le16s, le32, le32s, starts_with_response_magic,
}

-- static_cast<int16_t> of an int32_t.
abbrev to_i16 : ℤ → ℤ
to_i16 z = i16_of (u16_of z)

-- The string ends at a NUL or at its slot's end; spaces behind it are dropped.
up_to_nul : ℕ → Bytes → Bytes
up_to_nul zero p = []
up_to_nul (suc n) [] = []
up_to_nul (suc n) (b ∷ bs) = let rest = up_to_nul n bs in if b == 0 then [] else b ∷ rest

strip_spaces : Bytes → Bytes
strip_spaces [] = []
strip_spaces (b ∷ bs) = elim (strip_spaces bs) [
  | [] ↦ if b == 0x20 then [] else b ∷ []
  | c ∷ cs ↦ b ∷ c ∷ cs
]

unfoldable pub read_string : Bytes → ℕ → ℕ → Bytes
unfolding up_to_nul strip_spaces
read_string p offset max_len = strip_spaces (up_to_nul max_len (drop offset p))

-- The checks that the parsers share.
unfoldable pub is_response_of : ℕ → Bytes → Bool
is_response_of frame_type frame =
    if ltb (length frame) response_size
    then false
    else if not (starts_with_response_magic frame)
    then false
    else byte_at frame 4 == frame_type

-- (1 << n) - 1 for some n ≥ 4.
unfoldable pub looks_like_bitmask : ℕ → Bool
looks_like_bitmask v = leb 0x0F v && bit_and (u32 (v + 1)) v == 0

-- The voltage table: it ends at its last slot, or at the first zero.
unfoldable pub cell_voltages : ℕ → ℕ → Bytes → List ℕ
cell_voltages zero i frame = []
cell_voltages (suc slots) i frame =
    let v = le16 frame (6 + i * 2) in
    let rest = cell_voltages slots (i + 1) frame in if v == 0 then [] else v ∷ rest

unfoldable pub cell_resistances : ℕ → ℕ → ℕ → Bytes → List ℕ
cell_resistances zero i res_off frame = []
cell_resistances (suc n) i res_off frame =
    le16 frame (res_off + i * 2) ∷ cell_resistances n (i + 1) res_off frame

-- The BMS counts from 1, and 0 stays 0.
abbrev from_one_based : ℕ → ℕ
from_one_based b = if not (b == 0) then u8 (b - 1) else 0

unfoldable pub cell_info : Bool → Bytes → JkCellInfo × JkPackInfo
cell_info is_32s frame =
    let cell_slots = if is_32s then 32 else 24 in
    let cell_shift = if is_32s then 16 else 0 in
    let telem_shift = if is_32s then 32 else 0 in
    let voltages = cell_voltages cell_slots 0 frame in
    let res_off = if is_32s then 80 else 64 in
    (
      record {
        voltages_mv = voltages;
        resistance_uohm = cell_resistances (length voltages) 0 res_off frame;
        average_voltage_mv = le16 frame (58 + cell_shift);
        voltage_diff_mv = le16 frame (60 + cell_shift);
        max_voltage_cell_idx = from_one_based (byte_at frame (62 + cell_shift));
        min_voltage_cell_idx = from_one_based (byte_at frame (63 + cell_shift));
      },
      record {
        voltage_mv = i32_of (le32 frame (118 + telem_shift));
        current_ma = le32s frame (126 + telem_shift);
        state_of_charge_pct = byte_at frame (141 + telem_shift);
        remaining_capacity_mah = le32 frame (142 + telem_shift);
        total_capacity_mah = le32 frame (146 + telem_shift);
        cycle_count = le32 frame (150 + telem_shift);
        battery_temp1_dc = le16s frame (130 + telem_shift);
        battery_temp2_dc = le16s frame (132 + telem_shift);
        power_tube_temp_dc = if is_32s then le16s frame 144 else le16s frame 134;
        charging_enabled = not (byte_at frame (166 + telem_shift) == 0);
        discharging_enabled = not (byte_at frame (167 + telem_shift) == 0);
        balancer_enabled = not (byte_at frame (140 + telem_shift) == 0);
        balance_current_ma = i16_of (le16 frame (138 + telem_shift));
        errors_bitmask = le16 frame (if is_32s then 166 else 136);
      },
    )

unfoldable pub parse_cell_info : Bytes → Option (JkCellInfo × JkPackInfo)
parse_cell_info frame =
    if not (is_response_of frame_type_cell_info frame)
    then none
    else some (cell_info (not (looks_like_bitmask (le32 frame 54))) frame)

unfoldable pub device_info : Bytes → JkDeviceInfo
device_info frame = record {
  vendor_id = read_string frame 6 16;
  hardware_version = read_string frame 22 8;
  firmware_version = read_string frame 30 8;
  uptime_s = le32 frame 38;
  power_on_count = le32 frame 42;
  device_name = read_string frame 46 16;
  login_password = read_string frame 62 16;
  manufacturing_date = read_string frame 78 8;
  serial_number = read_string frame 86 16;
  user_data_1 = read_string frame 102 16;
  settings_password = read_string frame 118 16;
  user_data_2 = read_string frame 134 16;
  uart1_protocol = byte_at frame 184;
  can_protocol = byte_at frame 185;
  uart2_protocol = byte_at frame 218;
  lcd_buzzer_trigger_protocol = byte_at frame 234;
  lcd_buzzer_trigger_value = le32 frame 238;
  lcd_buzzer_release_value = le32 frame 242;
  data_store_period_s = le32 frame 262;
  rcv_time_01h = byte_at frame 266;
  rfv_time_01h = byte_at frame 267;
  emerg_time = byte_at frame 269;
  rebulk_soc_pct = byte_at frame 278;
}

unfoldable pub parse_device_info : Bytes → Option JkDeviceInfo
parse_device_info frame =
    if not (is_response_of frame_type_device_info frame) then none else some (device_info frame)

unfoldable pub settings : Bytes → JkSettings
settings frame = record {
  smart_sleep_mv = u16 (le32 frame 6);
  cell_uvp_mv = u16 (le32 frame 10);
  cell_uvpr_mv = u16 (le32 frame 14);
  cell_ovp_mv = u16 (le32 frame 18);
  cell_ovpr_mv = u16 (le32 frame 22);
  balance_trigger_mv = u16 (le32 frame 26);
  soc_100_mv = u16 (le32 frame 30);
  soc_0_mv = u16 (le32 frame 34);
  request_charge_mv = u16 (le32 frame 38);
  request_float_mv = u16 (le32 frame 42);
  power_off_mv = u16 (le32 frame 46);
  max_charge_current_ma = le32 frame 50;
  charge_ocp_delay_s = le32 frame 54;
  charge_ocp_recovery_s = le32 frame 58;
  max_discharge_current_ma = le32 frame 62;
  discharge_ocp_delay_s = le32 frame 66;
  discharge_ocp_recovery_s = le32 frame 70;
  scp_recovery_s = le32 frame 74;
  max_balance_current_ma = le32 frame 78;
  charge_otp_dc = to_i16 (le32s frame 82);
  charge_otp_recovery_dc = to_i16 (le32s frame 86);
  discharge_otp_dc = to_i16 (le32s frame 90);
  discharge_otp_recovery_dc = to_i16 (le32s frame 94);
  charge_utp_dc = to_i16 (le32s frame 98);
  charge_utp_recovery_dc = to_i16 (le32s frame 102);
  mosfet_otp_dc = to_i16 (le32s frame 106);
  mosfet_otp_recovery_dc = to_i16 (le32s frame 110);
  cell_count = u8 (le32 frame 114);
  charging_switch_on = not (le32 frame 118 == 0);
  discharging_switch_on = not (le32 frame 122 == 0);
  balancer_switch_on = not (le32 frame 126 == 0);
  nominal_capacity_mah = le32 frame 130;
  scp_delay_us = le32 frame 134;
  start_balance_mv = u16 (le32 frame 138);
}

unfoldable pub parse_settings : Bytes → Option JkSettings
parse_settings frame =
    if not (is_response_of frame_type_settings frame) then none else some (settings frame)
