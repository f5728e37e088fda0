-- ===== src/Tests/Setup.antt =====
-- A configuration that loads.
use bms_bridge.Base.{◌≡◌, refl, [], ◌∷◌, none, some, pos, true, false, Bytes}
use bms_bridge.Config.Types.{
  BatteryConfig, is_monitored, BatterySection, Document, AppConfig, HttpConfig, HistoryConfig,
  parsed, ttl, bluetooth, ok,
}
use bms_bridge.Config.{
  app_config, battery_config, load_config, load_document, load_blocks, require_inverter,
  load_batteries, check_battery, seen, check_mirrors, check_mirror, mirror_found, find_battery,
  link_from_str, reserve_word, pylontech_word,
}
use bms_bridge.Battery.State.{SharedState, new_state}
use bms_bridge.Battery.Assembly.{start_battery, start_bluetooth}
use bms_bridge.Config.Validity.{IsValid, load_config-IsValid}

abbrev pub section_m : BatterySection
section_m = record {
  title = some (b'm' ∷ []);
  type = some (b't' ∷ b't' ∷ b'l' ∷ []);
  address = some (b'a' ∷ []);
  capacity = pos 140;
  protocol = some pylontech_word;
  service_uuid = none;
  char_write_uuid = none;
  char_notify_uuid = none;
  scan_timeout_ms = pos 10000;
  adapter_poll_ms = pos 2000;
  pylontech_address = pos 1;
  uart_baud = pos 115200;
  mirror = none;
  reconnect_ms = pos 5000;
  bms_poll_period_ms = pos 5000;
  settings_refresh_period_ms = pos 60000;
  bms_state_update_interval_ms = pos 500;
}

abbrev pub section_r : BatterySection
section_r = record section_m {
  title = some (b'r' ∷ []);
  type = some reserve_word;
  capacity = pos 100;
  protocol = none;
  mirror = some (b'm' ∷ []);
}

abbrev pub document : Document
document = record {
  log_level = pos 4;
  log_file = none;
  inverter = some (some (b'u' ∷ []), pos 9600);
  http = none;
  history = none;
  batteries = section_m ∷ section_r ∷ [];
}

abbrev pub web : HttpConfig
web = record { http_port = pos 80; www_root = [] }

abbrev pub store : HistoryConfig
store = record { db_path = []; ram_window_s = pos 86400 }

abbrev pub loaded : AppConfig
loaded =
    app_config web store document (some (b'u' ∷ []), pos 9600)
      (battery_config ttl section_m ∷ battery_config ttl section_r ∷ [])

pub load_run : load_config ttl web store (parsed document) ≡ ok loaded
unfolding load_config load_document load_blocks require_inverter load_batteries check_battery seen
    check_mirrors check_mirror mirror_found find_battery battery_config link_from_str
load_run = refl

load_config-IsValid_example : IsValid loaded
load_config-IsValid_example = load_config-IsValid ttl web store (parsed document) loaded load_run

reserve_link : is_monitored (battery_config ttl section_r) ≡ false
unfolding battery_config link_from_str
reserve_link = refl

abbrev states : Bytes → SharedState
states name = new_state

-- A Bluetooth battery with the serial protocol: it loads as a monitored battery, and is not started.
abbrev mismatched : BatteryConfig
mismatched = record (battery_config ttl section_m) { link = bluetooth }

mismatched_loads : check_battery [] mismatched ≡ ok mismatched
unfolding check_battery seen battery_config link_from_str
mismatched_loads = refl

mismatched_monitored : is_monitored mismatched ≡ true
mismatched_monitored = refl

mismatched_unstarted : start_battery mismatched ≡ none
unfolding start_battery start_bluetooth battery_config
mismatched_unstarted = refl
