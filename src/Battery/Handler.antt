-- ===== src/Battery/Handler.antt =====
-- BmsHandler of src/bms_handler.cpp: one battery's protocol, its shared state and the history.
--
-- The handler is modelled over the operations of the protocol that it owns. What it gives the
-- transport to send and the history to append is kept in order; the history's store is not part of
-- it. Times are milliseconds of the steady clock; an event carries the clock's reading.
pub mod Run
pub mod HistoryRate
use bms_bridge.Base.{
  ℕ, ◌+◌, ◌-◌, ◌≤◌, List, [], ◌∷◌, ◌++◌, Option, none, some, Bool, true, false, leb, if◌then◌else◌,
  Bytes,
}
use bms_bridge.Jk.Types.{JkCellInfo, JkPackInfo, JkSettings}
use bms_bridge.Battery.Protocol.{Telemetry, Parsed}
use bms_bridge.Battery.State.{
  SharedState, new_state, set_connected, apply_telemetry, apply_settings,
}

-- BatteryProtocol of include/battery_protocol.hpp: the operations of a protocol with state `P`.
pub record BatteryProtocol (P : Type 0) : Type 0 where
  pub reset : P → P
  pub poll_request : P → Bytes
  pub settings_request : P → Bytes
  pub feed : P → Bytes → P × Parsed

-- What BmsHandler holds, and what it has given away.
pub record BmsHandler (P : Type 0) : Type 0 where
  pub protocol : P
  pub state : SharedState
  pub history_interval : ℕ
  pub state_update_interval : ℕ
  pub last_history_write : ℕ
  pub last_state_update : ℕ
  pub sent : List Bytes
  pub history : List (ℕ × JkCellInfo × JkPackInfo)

-- What the dispatcher calls.
pub data Event : Type 0 where
  connected : Event
  disconnected : Event
  received : ℕ → Bytes → Event
  poll_tick : Event
  settings_tick : Event

module _ {P : Type 0} where
  abbrev pub new_handler : P → (history_interval state_update_interval : ℕ) → BmsHandler P
  new_handler protocol history_interval state_update_interval = record {
    protocol = protocol;
    state = new_state;
    history_interval = history_interval;
    state_update_interval = state_update_interval;
    last_history_write = 0;
    last_state_update = 0;
    sent = [];
    history = [];
  }

  -- An empty request is not sent: the protocol only listens.
  unfoldable pub send : Bytes → BmsHandler P → BmsHandler P
  send bytes h = elim bytes [ [] ↦ h | b ∷ bs ↦ record h { sent = h.sent ++ (b ∷ bs) ∷ [] } ]

  -- The newest entry of the history is in front.
  unfoldable pub write_history : ℕ → JkCellInfo → JkPackInfo → BmsHandler P → BmsHandler P
  write_history now cells pack h =
      if leb h.history_interval (now - h.last_history_write)
      then record h { history = (now, cells, pack) ∷ h.history; last_history_write = now }
      else h

  unfoldable pub update_state : ℕ → JkCellInfo → JkPackInfo → BmsHandler P → BmsHandler P
  update_state now cells pack h =
      if leb h.state_update_interval (now - h.last_state_update)
      then record h { state = apply_telemetry now cells pack h.state; last_state_update = now }
      else h

  unfoldable pub on_telemetry : ℕ → JkCellInfo → JkPackInfo → BmsHandler P → BmsHandler P
  on_telemetry now cells pack h = update_state now cells pack (write_history now cells pack h)

  unfoldable pub keep_settings : Option JkSettings → BmsHandler P → BmsHandler P
  keep_settings none h = h
  keep_settings (some s) h = record h { state = apply_settings s h.state }

  unfoldable pub keep_telemetry : ℕ → Option Telemetry → BmsHandler P → BmsHandler P
  keep_telemetry now none h = h
  keep_telemetry now (some t) h = on_telemetry now t.cells t.pack h

module _ {P : Type 0} (B : BatteryProtocol P) where
  unfoldable pub on_poll_tick : BmsHandler P → BmsHandler P
  on_poll_tick h = send (B.poll_request h.protocol) h

  unfoldable pub on_settings_tick : BmsHandler P → BmsHandler P
  on_settings_tick h = send (B.settings_request h.protocol) h

  unfoldable pub on_connected : BmsHandler P → BmsHandler P
  on_connected h =
      let h = record h { state = set_connected true h.state; protocol = B.reset h.protocol } in
      let h = send (B.settings_request h.protocol) h in send (B.poll_request h.protocol) h

  unfoldable pub on_disconnected : BmsHandler P → BmsHandler P
  on_disconnected h = record h {
    state = set_connected false h.state;
    protocol = B.reset h.protocol;
  }

  unfoldable pub on_bytes : ℕ → Bytes → BmsHandler P → BmsHandler P
  on_bytes now chunk h =
      let (protocol, parsed) = B.feed h.protocol chunk in
      keep_settings parsed.settings
        (keep_telemetry now parsed.telemetry (record h { protocol = protocol }))

  unfoldable pub handle : Event → BmsHandler P → BmsHandler P
  handle connected h = on_connected h
  handle disconnected h = on_disconnected h
  handle (received now chunk) h = on_bytes now chunk h
  handle poll_tick h = on_poll_tick h
  handle settings_tick h = on_settings_tick h

  -- A run of the dispatcher.
  abbrev pub run : List Event → BmsHandler P → BmsHandler P
  run [] h = h
  run (e ∷ es) h = run es (handle e h)
