-- ===== src/Jk/Driver.antt =====
-- The JK protocol behind the BatteryProtocol interface: src/jk_protocol_driver.cpp.
pub mod Feeding
use bms_bridge.Base.{ℕ, zero, suc, [], Option, none, some, ◌==◌, if◌then◌else◌, Bytes, map}
use bms_bridge.Battery.Protocol.{Telemetry, Parsed, nothing_parsed}
use bms_bridge.Jk.Wire.{
  cmd_cell_info, cmd_device_info, frame_type_cell_info, frame_type_device_info, frame_type_settings,
  jk_response_frame_type, serialize,
}
use bms_bridge.Jk.Parse.{parse_cell_info, parse_device_info, parse_settings}
use bms_bridge.Jk.Assembler.{JkFrameAssembler, push_chunk, take_complete_frame}
use bms_bridge.Jk.Assembler

unfoldable pub reset : JkFrameAssembler → JkFrameAssembler
reset a = Assembler.reset a

unfoldable pub poll_request : Bytes
poll_request = serialize (record { command = cmd_cell_info; value_length = 0; value = 0 }) []

unfoldable pub settings_request : Bytes
settings_request = serialize (record { command = cmd_device_info; value_length = 0; value = 0 }) []

unfoldable pub keep_telemetry : Bytes → Parsed → Parsed
keep_telemetry frame out = elim (parse_cell_info frame) [
  | none ↦ out
  | some (cells, pack) ↦ record out { telemetry = some (record { cells = cells; pack = pack }) }
]

unfoldable pub keep_settings : Bytes → Parsed → Parsed
keep_settings frame out = elim (parse_settings frame) [
  | none ↦ out
  | some s ↦ record out { settings = some s }
]

-- The loop's body. Device information and unknown types are only logged.
unfoldable pub handle_frame : Bytes → Parsed → Parsed
handle_frame frame out = elim (jk_response_frame_type frame) [
  | none ↦ out
  | some type ↦
      if type == frame_type_cell_info
      then keep_telemetry frame out
      else if type == frame_type_device_info
      then out
      else if type == frame_type_settings
      then keep_settings frame out
      else out
]

-- At most one frame is ready, and taking it leaves none, so two rounds are fuel enough.
unfoldable pub take_frames : ℕ → JkFrameAssembler → Parsed → JkFrameAssembler × Parsed
take_frames zero a out = (a, out)
take_frames (suc fuel) a out =
    let (taken, a) = take_complete_frame a in
    elim taken [ none ↦ (a, out) | some frame ↦ take_frames fuel a (handle_frame frame out) ]

unfoldable pub feed : JkFrameAssembler → Bytes → JkFrameAssembler × Parsed
feed assembler bytes = take_frames 2 (push_chunk bytes assembler) nothing_parsed
