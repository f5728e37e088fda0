-- ===== src/Battery/Path.antt =====
-- From the frames of a JK BMS to what the inverter is answered: the protocol of
-- src/jk_protocol_driver.cpp in the handler of src/bms_handler.cpp, and the inverter over its state.
pub mod Steps
use bms_bridge.Base.{
  ℕ, ◌+◌, ◌-◌, ◌≤◌, ◌<◌, ◌≡◌, ◌≢◌, refl, sym, ap, subst, ◌∙◌, List, [], ◌∷◌, ◌++◌, All, some, none,
  true, false, Bool-cases, inl, inr, leb, not, if◌then◌else◌, Bytes, get_elem?, arith,
}
use bms_bridge.Jk.Types.{JkCellInfo, JkPackInfo, JkSettings}
use bms_bridge.Jk.Wire.{byte_at, le32}
use bms_bridge.Jk.Parse.{cell_info, settings, looks_like_bitmask}
use bms_bridge.Jk.Assembler.{JkFrameAssembler}
use bms_bridge.Jk.Assembler
use bms_bridge.Jk.Assembler.Delivery.{IsResponse}
use bms_bridge.Jk.Driver.{feed, poll_request, settings_request}
use bms_bridge.Jk.Driver
use bms_bridge.Jk.Driver.Feeding.{feed-Told}
use bms_bridge.Battery.Protocol.{Parsed}
use bms_bridge.Battery.State.{
  SharedState, set_connected, apply_settings, apply_telemetry, snapshot, is_fresh,
}
use bms_bridge.Battery.Handler.{
  BatteryProtocol, BmsHandler, Event, connected, received, run, on_connected, on_bytes, handle,
  send, keep_settings, keep_telemetry, on_telemetry, write_history, update_state,
}
use bms_bridge.Pylontech.Frame.{PylontechFrame}
use bms_bridge.Inverter.{
  Battery, build_address_map, response_to, module_pack, module_limits, live, answer,
}
use bms_bridge.Inverter.Addresses.{count_of, offset}
use bms_bridge.Inverter.Answering.{answer-monitored}
use bms_bridge.Battery.Path.Steps.{
  jk_protocol, JkHandler, telemetry_of, connected-Waits, settings-Waits, telemetry-state,
}

module _ (t now : ℕ) (settings_junk fs cells_junk fc : Bytes) (h : JkHandler) where
  -- A link that comes up, a settings frame and a cell information frame, each behind noise.
  abbrev pub session : List Event
  session = connected ∷ received t (settings_junk ++ fs) ∷ received now (cells_junk ++ fc) ∷ []

  -- What the session asks of its bytes and times.
  pub record IsSession : Type 0 where
    pub settings_noise : All (λ b. b ≢ 0x55) settings_junk
    pub settings_frame : IsResponse fs
    pub settings_type : byte_at fs 4 ≡ 1
    pub cells_noise : All (λ b. b ≢ 0x55) cells_junk
    pub cells_frame : IsResponse fc
    pub cells_type : byte_at fc 4 ≡ 2
    pub due : h.state_update_interval ≤ now - h.last_state_update

  run-session :
      IsSession
      → (run jk_protocol session h).state
        ≡ apply_telemetry now
            (telemetry_of fc).0
            (telemetry_of fc).1
            (apply_settings (settings fs) (set_connected true h.state))
  unfolding handle
  run-session v =
      let first = on_connected jk_protocol h in
      let second = on_bytes jk_protocol t (settings_junk ++ fs) first in
      telemetry-state (apply_settings (settings fs) (set_connected true h.state))
        h.state_update_interval h.last_state_update now cells_junk fc second v.cells_noise
        v.cells_frame v.cells_type v.due
        (settings-Waits (set_connected true h.state) h.state_update_interval h.last_state_update t
          settings_junk fs first v.settings_noise v.settings_frame v.settings_type
          (connected-Waits h))

  live-session :
      (later : ℕ) (s : SharedState)
      → later - now ≤ 5000
      → s
        ≡ apply_telemetry now
            (telemetry_of fc).0
            (telemetry_of fc).1
            (apply_settings (settings fs) (set_connected true h.state))
      → live later s ≡ some ((telemetry_of fc).0, (telemetry_of fc).1, settings fs)
  unfolding live snapshot is_fresh apply_telemetry apply_settings set_connected
  live-session later s fresh e =
      let test : leb (later - now) 5000 ≡ true = ground arith in ap (live later) e ∙ rw test refl

  -- A JK battery whose link comes up and that sends a settings frame and then a cell information
  -- frame, each behind bytes without 0x55, with a state update due by the second: for 5000 ms from
  -- then, a request to any of its modules is answered from exactly what the two frames hold, with
  -- the module's slice of pack and limits.
  pub answer-session :
      (later : ℕ) (batteries : List Battery) (k m : ℕ) (b : Battery) (f : PylontechFrame)
      → IsSession
      → later - now ≤ 5000
      → get_elem? batteries k ≡ some b
      → b.monitored ≡ true
      → b.state ≡ (run jk_protocol session h).state
      → m < count_of b
      → f.adr ≡ 2 + (offset batteries k + m)
      → answer later batteries (build_address_map batteries) f
        ≡ response_to f
            (telemetry_of fc).0
            (module_pack (count_of b) (telemetry_of fc).1)
            (module_limits (count_of b) (settings fs))
  answer-session later batteries k m b f v fresh b_eq mon state_eq m_lt adr_eq =
      answer-monitored later batteries k m b f (telemetry_of fc).0 (telemetry_of fc).1 (settings fs)
        b_eq m_lt adr_eq mon (live-session later b.state fresh (state_eq ∙ run-session v))
