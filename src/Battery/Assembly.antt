-- ===== src/Battery/Assembly.antt =====
-- Battery::start and Battery::stop of src/battery.cpp: which protocol and transport a battery gets.
use bms_bridge.Base.{
  List, [], ◌∷◌, Option, none, some, not, if◌then◌else◌, Bytes, ℤ, pos, ◌+ℤ◌, same_name,
}
use bms_bridge.Config.{jk_bt_word, pylontech_word}
use bms_bridge.Config.Types.{bluetooth, ttl, reserve, BatteryConfig}

-- The protocol object; a Pylontech master polls the address on the wire.
pub data ProtocolOf : Type 0 where
  jk_protocol : ProtocolOf
  pylontech_master : ℤ → ProtocolOf

-- The transport object with its settings: the address, the service's UUIDs and the three delays, or
-- the device, the rate and the delay.
pub data TransportOf : Type 0 where
  ble_transport : Bytes → Bytes → Bytes → Bytes → ℤ → ℤ → ℤ → TransportOf
  uart_transport : Bytes → ℤ → ℤ → TransportOf

-- `timers` are the periods of the poll and the settings tick.
pub record Assembly : Type 0 where
  pub transport : TransportOf
  pub protocol : ProtocolOf
  pub history_interval : ℤ
  pub state_update_interval : ℤ
  pub timers : List ℤ

unfoldable pub assembly : BatteryConfig → TransportOf → ProtocolOf → Assembly
assembly cfg transport protocol = record {
  transport = transport;
  protocol = protocol;
  history_interval = cfg.bms_poll_period_ms;
  state_update_interval = cfg.bms_state_update_interval_ms;
  timers = cfg.bms_poll_period_ms ∷ cfg.settings_refresh_period_ms ∷ [];
}

unfoldable pub start_bluetooth : BatteryConfig → Option Assembly
unfolding assembly
start_bluetooth cfg =
    if not (same_name cfg.protocol jk_bt_word)
    then none
    else some (
        assembly cfg
          (ble_transport cfg.address cfg.service_uuid cfg.char_write_uuid cfg.char_notify_uuid
            cfg.scan_timeout_ms cfg.adapter_poll_ms cfg.reconnect_ms)
          jk_protocol)

unfoldable pub start_ttl : BatteryConfig → Option Assembly
unfolding assembly
start_ttl cfg =
    if not (same_name cfg.protocol pylontech_word)
    then none
    else some (
        assembly cfg (uart_transport cfg.address cfg.uart_baud cfg.reconnect_ms)
          (pylontech_master (cfg.pylontech_address +ℤ pos 1)))

-- What start() sets up; none for a battery that it leaves alone.
unfoldable pub start_battery : BatteryConfig → Option Assembly
unfolding start_bluetooth start_ttl
start_battery cfg = elim cfg.link [
  | bluetooth ↦ start_bluetooth cfg
  | ttl ↦ start_ttl cfg
  | reserve ↦ none
]

-- What stop() stops.
unfoldable pub stop_battery : Option Assembly → List TransportOf
stop_battery none = []
stop_battery (some a) = a.transport ∷ []
