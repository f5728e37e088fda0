-- ===== src/Pylontech/Payload/Alarm.antt =====
-- CID2 = 0x44, alarm and status flags: AlarmResponse of include/pylontech.hpp and its methods in src/pylontech.cpp.
use bms_bridge.Base.{
  ℕ, ◌≡◌, [], ◌∷◌, ◌++◌, length, Bytes, u8, arith, append_assoc, IsByte, AreBytes,
}
use bms_bridge.Pylontech.Cursor.{
  put_u8, put_u8s, IsOutput, empty-IsOutput, put_u8-IsOutput, put_u8s-IsOutput, put_u8s-eq,
}

pub record AlarmResponse : Type 0 where
  pub dataflag : ℕ
  pub command : ℕ
  pub cell_voltage_states : Bytes
  pub temperature_states : Bytes
  pub charge_current_state : ℕ
  pub module_voltage_state : ℕ
  pub discharge_current_state : ℕ
  pub status_byte_1 : ℕ
  pub status_byte_2 : ℕ
  pub status_byte_3 : ℕ
  pub cell_error_states_1_8 : ℕ
  pub cell_error_states_9_16 : ℕ

unfoldable pub serialize : AlarmResponse → Bytes → Bytes
serialize r info =
    let w = put_u8 (put_u8 info r.dataflag) r.command in
    let w = put_u8s (put_u8 w (u8 (length r.cell_voltage_states))) r.cell_voltage_states in
    let w = put_u8s (put_u8 w (u8 (length r.temperature_states))) r.temperature_states in
    let w =
      put_u8 (put_u8 (put_u8 w r.charge_current_state) r.module_voltage_state)
        r.discharge_current_state in
    let w = put_u8 (put_u8 (put_u8 w r.status_byte_1) r.status_byte_2) r.status_byte_3 in
    put_u8 (put_u8 w r.cell_error_states_1_8) r.cell_error_states_9_16

pub record IsAlarm (r : AlarmResponse) : Type 0 where
  pub dataflag : IsByte r.dataflag
  pub command : IsByte r.command
  pub cells : AreBytes r.cell_voltage_states
  pub temperatures : AreBytes r.temperature_states
  pub charge_current : IsByte r.charge_current_state
  pub module_voltage : IsByte r.module_voltage_state
  pub discharge_current : IsByte r.discharge_current_state
  pub status_1 : IsByte r.status_byte_1
  pub status_2 : IsByte r.status_byte_2
  pub status_3 : IsByte r.status_byte_3
  pub errors_1_8 : IsByte r.cell_error_states_1_8
  pub errors_9_16 : IsByte r.cell_error_states_9_16

pub serialize-IsOutput : (r : AlarmResponse) → IsAlarm r → IsOutput (serialize r [])
unfolding serialize
serialize-IsOutput r v =
    let head =
      put_u8-IsOutput r.command (put_u8-IsOutput r.dataflag empty-IsOutput v.dataflag) v.command in
    let cells =
      put_u8s-IsOutput r.cell_voltage_states
        (put_u8-IsOutput (u8 (length r.cell_voltage_states)) head (omega arith)) v.cells in
    let temps =
      put_u8s-IsOutput r.temperature_states
        (put_u8-IsOutput (u8 (length r.temperature_states)) cells (omega arith)) v.temperatures in
    let charge = put_u8-IsOutput r.charge_current_state temps v.charge_current in
    let voltage = put_u8-IsOutput r.module_voltage_state charge v.module_voltage in
    let discharge = put_u8-IsOutput r.discharge_current_state voltage v.discharge_current in
    let first = put_u8-IsOutput r.status_byte_1 discharge v.status_1 in
    let second = put_u8-IsOutput r.status_byte_2 first v.status_2 in
    let third = put_u8-IsOutput r.status_byte_3 second v.status_3 in
    put_u8-IsOutput r.cell_error_states_9_16
      (put_u8-IsOutput r.cell_error_states_1_8 third v.errors_1_8) v.errors_9_16

-- The payload byte by byte: both lists are preceded by their lengths.
pub serialize-eq :
    (r : AlarmResponse)
    → serialize r []
      ≡ r.dataflag
        ∷ r.command
        ∷ u8 (length r.cell_voltage_states)
        ∷ (r.cell_voltage_states
            ++ (u8 (length r.temperature_states)
                ∷ (r.temperature_states
                    ++ (r.charge_current_state ∷ r.module_voltage_state ∷ r.discharge_current_state
                        ∷ r.status_byte_1 ∷ r.status_byte_2 ∷ r.status_byte_3
                        ∷ r.cell_error_states_1_8 ∷ r.cell_error_states_9_16 ∷ []))))
unfolding serialize
serialize-eq r = simp (put_u8s-eq, append_assoc)
