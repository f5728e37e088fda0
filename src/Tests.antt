-- ===== src/Tests.antt =====
-- Concrete frames, telemetry and devices, and the theorems applied to them.
mod Loop
mod Path
mod Queries
mod Wire
mod Bms
mod Bridge
mod Setup
mod Events
mod Radio
mod Serial
mod Store
mod Start
mod Web
use bms_bridge.Base.{
  ℕ, [], ◌∷◌, ◌++◌, List, Bytes, none, some, true, false, ℤ, pos, negsuc, replicate, All,
  All-append, AreBytes, AreWords, arith, ◌≢◌, zero, suc,
}
use bms_bridge.Jk.Types.{
  JkCellInfo, JkPackInfo, JkSettings, default_jk_cell_info, default_jk_pack_info,
  default_jk_settings,
}
use bms_bridge.Battery.State.{SharedState}
use bms_bridge.Pylontech.Frame.{PylontechFrame}
use bms_bridge.Pylontech.Frame.RoundTrip.{IsFrame}
use bms_bridge.Pylontech.Responder.Answers.{AreCells, AreSettings}
use bms_bridge.Inverter.{Battery, Inverter, build_address_map}

-- A poll of the module at address `adr`.
abbrev analog_request : ℕ → PylontechFrame
analog_request adr = record { ver = 0x20; adr = adr; cid1 = 0x46; cid2 = 0x42; info = adr ∷ [] }

analog_request-IsFrame : IsFrame (analog_request 2)
analog_request-IsFrame = record {
  ver = omega arith;
  adr = omega arith;
  cid1 = omega arith;
  cid2 = omega arith;
  info = (omega arith, tt);
}

-- The same as it is sent.
abbrev wire_bytes : Bytes
wire_bytes =
    b'2' ∷ b'0' ∷ b'0' ∷ b'2' ∷ b'4' ∷ b'6' ∷ b'4' ∷ b'2' ∷ b'E' ∷ b'0' ∷ b'0' ∷ b'2' ∷ b'0' ∷ b'2'
    ∷ b'F' ∷ b'D' ∷ b'3' ∷ b'3' ∷ 0x0D ∷ []

abbrev cells : JkCellInfo
cells = record default_jk_cell_info { voltages_mv = 3301 ∷ 3299 ∷ 3310 ∷ [] }

abbrev pack : JkPackInfo
pack = record default_jk_pack_info {
  voltage_mv = pos 9910;
  current_ma = negsuc 11999;
  state_of_charge_pct = 80;
  remaining_capacity_mah = 112000;
  total_capacity_mah = 140000;
  cycle_count = 12;
}

abbrev limits : JkSettings
limits = record default_jk_settings {
  cell_ovp_mv = 3650;
  cell_uvpr_mv = 2900;
  cell_uvp_mv = 2700;
  max_charge_current_ma = 100000;
  max_discharge_current_ma = 100000;
  cell_count = 3;
}

cells-AreCells : AreCells cells
cells-AreCells = record {
  words = (omega arith, (omega arith, (omega arith, tt)));
  few = omega arith;
}

limits-AreSettings : AreSettings limits
limits-AreSettings = record { ovp = omega arith; uvpr = omega arith; uvp = omega arith }

abbrev live_state : SharedState
live_state = record {
  connected = true;
  cells = some cells;
  pack = some pack;
  settings = some limits;
  updated_at = 1000;
}

-- A monitored battery of 140 Ah, and a reserve of 100 Ah that mirrors it.
abbrev main_battery : Battery
main_battery = record {
  name = b'm' ∷ [];
  monitored = true;
  mirror = [];
  capacity = pos 140;
  state = live_state;
}

abbrev reserve_battery : Battery
reserve_battery = record {
  name = b'r' ∷ [];
  monitored = false;
  mirror = b'm' ∷ [];
  capacity = pos 100;
  state = live_state;
}

abbrev batteries : List Battery
batteries = main_battery ∷ reserve_battery ∷ []
