-- ===== src/Battery/Protocol.antt =====
-- What a protocol hands to the driver: BatteryProtocol of include/battery_protocol.hpp.
use bms_bridge.Base.{Option, none}
use bms_bridge.Jk.Types.{JkCellInfo, JkPackInfo, JkSettings}

pub record Telemetry : Type 0 where
  pub cells : JkCellInfo
  pub pack : JkPackInfo

pub record Parsed : Type 0 where
  pub telemetry : Option Telemetry
  pub settings : Option JkSettings

abbrev pub nothing_parsed : Parsed
nothing_parsed = record { telemetry = none; settings = none }
