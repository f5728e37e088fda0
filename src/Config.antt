-- ===== src/Config.antt =====
-- The configuration: include/config.hpp and src/config.cpp.
--
-- libconfuse is a parameter: what its parser returns is a value of `Parse`, and what its getters
-- return is in the records below, with none for a null pointer. Its validation callbacks are
-- functions of the values they look at, true where they accept.
pub mod Types
pub mod Validity
use bms_bridge.Base.{
  ℕ, ◌+◌, ◌≤◌, List, [], ◌∷◌, ◌++◌, Option, none, some, Bool, true, false, not, ltb, leb, ◌&&◌,
  ◌||◌, if◌then◌else◌, Bytes, same_name, ℤ, pos, negsuc, i32_of, u32_of,
}
use bms_bridge.Config.Types.{
  BatteryLink, BatteryConfig, link_monitored, is_monitored, InverterConfig, HttpConfig,
  HistoryConfig, AppConfig, BatterySection, Document, Parse, ConfigError, Result, fail_if, and_then,
  bluetooth, ttl, reserve, file_error, parse_error, parsed, cannot_open, invalid_file, no_inverter,
  no_uart, no_battery, no_name, duplicate_name, no_address, no_protocol, no_capacity,
  unknown_mirror, unmonitored_mirror, ok, fail,
}

abbrev pub is_empty : Bytes → Bool
is_empty [] = true
is_empty (b ∷ bs) = false

abbrev pub sstr : Option Bytes → Bytes
sstr none = []
sstr (some v) = v

-- cfg_getint returns a long, which is stored in an int.
abbrev pub to_int : ℤ → ℤ
to_int z = i32_of (u32_of z)

abbrev bluetooth_word : Bytes
bluetooth_word = b'b' ∷ b'l' ∷ b'u' ∷ b'e' ∷ b't' ∷ b'o' ∷ b'o' ∷ b't' ∷ b'h' ∷ []

abbrev ttl_word : Bytes
ttl_word = b't' ∷ b't' ∷ b'l' ∷ []

abbrev pub reserve_word : Bytes
reserve_word = b'r' ∷ b'e' ∷ b's' ∷ b'e' ∷ b'r' ∷ b'v' ∷ b'e' ∷ []

abbrev pub jk_bt_word : Bytes
jk_bt_word = b'j' ∷ b'k' ∷ b'_' ∷ b'b' ∷ b't' ∷ []

abbrev pub pylontech_word : Bytes
pylontech_word = b'p' ∷ b'y' ∷ b'l' ∷ b'o' ∷ b'n' ∷ b't' ∷ b'e' ∷ b'c' ∷ b'h' ∷ []

unfoldable pub link_from_str : Bytes → Option BatteryLink
link_from_str s =
    if same_name s bluetooth_word
    then some bluetooth
    else if same_name s ttl_word
    then some ttl
    else if same_name s reserve_word
    then some reserve
    else none

unfoldable pub is_supported_protocol : Bytes → Bool
is_supported_protocol p = same_name p jk_bt_word || same_name p pylontech_word

unfoldable pub vf_type : Option Bytes → Bool
vf_type none = false
vf_type (some v) = elim (link_from_str v) [ none ↦ false | some l ↦ true ]

unfoldable pub vf_protocol : Option Bytes → Bool
vf_protocol v = is_empty (sstr v) || is_supported_protocol (sstr v)

abbrev is_word : Option Bytes → Bytes → Bool
is_word none w = false
is_word (some v) w = same_name v w

abbrev in_range : ℤ → Bool
in_range (pos n) = leb 1 n && leb n 16
in_range (negsuc n) = false

unfoldable pub vf_battery : BatterySection → Bool
vf_battery sec =
    if is_word sec.protocol pylontech_word && not (in_range sec.pylontech_address)
    then false
    else not (is_word sec.type reserve_word && is_empty (sstr sec.mirror))

-- The configuration of a block. `unset` is what the uninitialised `link` holds, which is kept where
-- link_from_str refuses the type.
unfoldable pub battery_config : (unset : BatteryLink) → BatterySection → BatteryConfig
battery_config unset b = record {
  name = sstr b.title;
  link = elim (link_from_str (sstr b.type)) [ none ↦ unset | some l ↦ l ];
  link_raw = sstr b.type;
  address = sstr b.address;
  capacity = to_int b.capacity;
  protocol = sstr b.protocol;
  service_uuid = sstr b.service_uuid;
  char_write_uuid = sstr b.char_write_uuid;
  char_notify_uuid = sstr b.char_notify_uuid;
  scan_timeout_ms = to_int b.scan_timeout_ms;
  adapter_poll_ms = to_int b.adapter_poll_ms;
  uart_baud = to_int b.uart_baud;
  pylontech_address = to_int b.pylontech_address;
  mirror = sstr b.mirror;
  reconnect_ms = to_int b.reconnect_ms;
  bms_poll_period_ms = to_int b.bms_poll_period_ms;
  settings_refresh_period_ms = to_int b.settings_refresh_period_ms;
  bms_state_update_interval_ms = to_int b.bms_state_update_interval_ms;
}

abbrev pub is_positive : ℤ → Bool
is_positive (pos n) = ltb 0 n
is_positive (negsuc n) = false

unfoldable pub seen : Bytes → List Bytes → Bool
seen name [] = false
seen name (n ∷ ns) = same_name n name || seen name ns

-- The checks of one block, in order, behind the names seen before it.
unfoldable pub check_battery : List Bytes → BatteryConfig → Result BatteryConfig
check_battery names bc = fail_if (is_empty bc.name) no_name (
    fail_if (seen bc.name names) (duplicate_name bc.name) (
      fail_if (is_empty bc.address) (no_address bc.name) (
        fail_if (is_monitored bc && is_empty bc.protocol) (no_protocol bc.name) (
          fail_if (not (is_monitored bc) && not (is_positive bc.capacity)) (no_capacity bc.name)
            (ok bc)))))

unfoldable pub load_batteries :
    BatteryLink → List Bytes → List BatterySection → Result (List BatteryConfig)
load_batteries unset names [] = ok []
load_batteries unset names (b ∷ bs) =
    let rest = load_batteries unset (sstr b.title ∷ names) bs in
    and_then (check_battery names (battery_config unset b))
      (λ bc. and_then rest (λ bcs. ok (bc ∷ bcs)))

-- std::find_if by name.
unfoldable pub find_battery : Bytes → List BatteryConfig → Option BatteryConfig
find_battery want [] = none
find_battery want (o ∷ os) =
    let rest = find_battery want os in if same_name o.name want then some o else rest

unfoldable pub mirror_found : BatteryConfig → Option BatteryConfig → Result BatteryConfig
mirror_found bc none = fail (unknown_mirror bc.name)
mirror_found bc (some o) = fail_if (not (is_monitored o)) (unmonitored_mirror bc.name) (ok bc)

unfoldable pub check_mirror : List BatteryConfig → BatteryConfig → Result BatteryConfig
check_mirror all bc =
    if is_monitored bc then ok bc else mirror_found bc (find_battery bc.mirror all)

unfoldable pub check_mirrors : List BatteryConfig → List BatteryConfig → Result (List BatteryConfig)
check_mirrors all [] = ok []
check_mirrors all (bc ∷ bcs) =
    let rest = check_mirrors all bcs in
    and_then (check_mirror all bc) (λ b. and_then rest (λ bs. ok (b ∷ bs)))

abbrev pub no_blocks : List BatterySection → Bool
no_blocks [] = true
no_blocks (b ∷ bs) = false

-- What is loaded when every check has passed.
abbrev pub app_config :
    HttpConfig → HistoryConfig → Document → Option Bytes × ℤ → List BatteryConfig → AppConfig
app_config http history d inv bcs = record {
  log_level = to_int d.log_level;
  log_file = sstr d.log_file;
  batteries = bcs;
  inverter = record { uart_device = sstr inv.0; inverter_baud = to_int inv.1 };
  http = elim d.http [
    | none ↦ http
    | some h ↦ record { http_port = to_int h.0; www_root = sstr h.1 }
  ];
  history = elim d.history [
    | none ↦ history
    | some h ↦ record { db_path = sstr h.0; ram_window_s = to_int h.1 }
  ];
}

-- Behind the look-up of the inverter block.
unfoldable pub load_blocks :
    BatteryLink → HttpConfig → HistoryConfig → Document → Option Bytes × ℤ → Result AppConfig
load_blocks unset http history d inv = fail_if (is_empty (sstr inv.0)) no_uart (
    fail_if (no_blocks d.batteries) no_battery (
      and_then (load_batteries unset [] d.batteries) (λ bcs.
        and_then (check_mirrors bcs bcs) (λ checked. ok (app_config http history d inv bcs)))))

unfoldable pub require_inverter : Option (Option Bytes × ℤ) → Result (Option Bytes × ℤ)
require_inverter none = fail no_inverter
require_inverter (some inv) = ok inv

-- Behind cfg_parse. `http` and `history` are the values in `out` before the call.
unfoldable pub load_document :
    BatteryLink → HttpConfig → HistoryConfig → Document → Result AppConfig
load_document unset http history d =
    and_then (require_inverter d.inverter) (load_blocks unset http history d)

unfoldable pub load_config : BatteryLink → HttpConfig → HistoryConfig → Parse → Result AppConfig
load_config unset http history file_error = fail cannot_open
load_config unset http history parse_error = fail invalid_file
load_config unset http history (parsed d) = load_document unset http history d
