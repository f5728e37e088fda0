-- ===== src/Config/Types.antt =====
-- The structs of include/config.hpp, what libconfuse returns, and the results of src/config.cpp.
use bms_bridge.Base.{List, Option, Bool, true, false, Bytes, ℤ}

pub data BatteryLink : Type 0 where
  bluetooth : BatteryLink
  ttl : BatteryLink
  reserve : BatteryLink

pub record BatteryConfig : Type 0 where
  pub name : Bytes
  pub link : BatteryLink
  pub link_raw : Bytes
  pub address : Bytes
  pub capacity : ℤ
  pub protocol : Bytes
  pub service_uuid : Bytes
  pub char_write_uuid : Bytes
  pub char_notify_uuid : Bytes
  pub scan_timeout_ms : ℤ
  pub adapter_poll_ms : ℤ
  pub uart_baud : ℤ
  pub pylontech_address : ℤ
  pub mirror : Bytes
  pub reconnect_ms : ℤ
  pub bms_poll_period_ms : ℤ
  pub settings_refresh_period_ms : ℤ
  pub bms_state_update_interval_ms : ℤ

abbrev pub link_monitored : BatteryLink → Bool
link_monitored bluetooth = true
link_monitored ttl = true
link_monitored reserve = false

abbrev pub is_monitored : BatteryConfig → Bool
is_monitored bc = link_monitored bc.link

pub record InverterConfig : Type 0 where
  pub uart_device : Bytes
  pub inverter_baud : ℤ

pub record HttpConfig : Type 0 where
  pub http_port : ℤ
  pub www_root : Bytes

pub record HistoryConfig : Type 0 where
  pub db_path : Bytes
  pub ram_window_s : ℤ

pub record AppConfig : Type 0 where
  pub log_level : ℤ
  pub log_file : Bytes
  pub batteries : List BatteryConfig
  pub inverter : InverterConfig
  pub http : HttpConfig
  pub history : HistoryConfig

-- The values of one battery block.
pub record BatterySection : Type 0 where
  pub title : Option Bytes
  pub type : Option Bytes
  pub address : Option Bytes
  pub capacity : ℤ
  pub protocol : Option Bytes
  pub service_uuid : Option Bytes
  pub char_write_uuid : Option Bytes
  pub char_notify_uuid : Option Bytes
  pub scan_timeout_ms : ℤ
  pub adapter_poll_ms : ℤ
  pub pylontech_address : ℤ
  pub uart_baud : ℤ
  pub mirror : Option Bytes
  pub reconnect_ms : ℤ
  pub bms_poll_period_ms : ℤ
  pub settings_refresh_period_ms : ℤ
  pub bms_state_update_interval_ms : ℤ

pub record Document : Type 0 where
  pub log_level : ℤ
  pub log_file : Option Bytes
  pub inverter : Option (Option Bytes × ℤ)
  pub http : Option (ℤ × Option Bytes)
  pub history : Option (Option Bytes × ℤ)
  pub batteries : List BatterySection

pub data Parse : Type 0 where
  file_error : Parse
  parse_error : Parse
  parsed : Document → Parse

pub data ConfigError : Type 0 where
  cannot_open : ConfigError
  invalid_file : ConfigError
  no_inverter : ConfigError
  no_uart : ConfigError
  no_battery : ConfigError
  no_name : ConfigError
  duplicate_name : Bytes → ConfigError
  no_address : Bytes → ConfigError
  no_protocol : Bytes → ConfigError
  no_capacity : Bytes → ConfigError
  unknown_mirror : Bytes → ConfigError
  unmonitored_mirror : Bytes → ConfigError

pub data Result (A : Type 0) : Type 0 where
  ok : A → Result A
  fail : ConfigError → Result A

-- `if (b) return fail(e);` in front of the rest.
abbrev pub fail_if : {A : Type 0} → Bool → ConfigError → Result A → Result A
fail_if true e rest = fail e
fail_if false e rest = rest

abbrev pub and_then : {A B : Type 0} → Result A → (A → Result B) → Result B
and_then (ok a) f = f a
and_then (fail e) f = fail e
