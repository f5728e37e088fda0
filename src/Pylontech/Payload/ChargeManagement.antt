-- ===== src/Pylontech/Payload/ChargeManagement.antt =====
-- CID2 = 0x92, charge and discharge management: ChargeManagementResponse of include/pylontech.hpp and its methods in src/pylontech.cpp.
use bms_bridge.Base.{
  ℕ, ◌+◌, ◌/◌, ◌%◌, ◌≡◌, Bool, [], if◌then◌else◌, Bytes, ℤ, arith, IsByte, u16_of,
}
use bms_bridge.Pylontech.Cursor.{
  put_u8, put_u16, put_i16, IsOutput, empty-IsOutput, put_u8-IsOutput, put_u16-IsOutput,
}

pub record ChargeManagementResponse : Type 0 where
  pub command : ℕ
  pub charge_voltage_limit_mv : ℕ
  pub discharge_voltage_limit_mv : ℕ
  pub charge_current_limit_01a : ℤ
  pub discharge_current_limit_01a : ℤ
  pub charge_enabled : Bool
  pub discharge_enabled : Bool
  pub request_charge_immediately : Bool
  pub request_charge_immediately_low : Bool
  pub request_full_charge : Bool

-- The flags are or-ed into one byte; each is a bit of its own, so the sum is the same.
unfoldable pub status : ChargeManagementResponse → ℕ
status r =
    (if r.charge_enabled then 0x80 else 0)
    + (if r.discharge_enabled then 0x40 else 0)
    + (if r.request_charge_immediately then 0x20 else 0)
    + (if r.request_charge_immediately_low then 0x10 else 0)
    + (if r.request_full_charge then 0x08 else 0)

unfoldable pub serialize : ChargeManagementResponse → Bytes → Bytes
serialize r info =
    let w = put_u16 (put_u8 info r.command) r.charge_voltage_limit_mv in
    let w = put_u16 w r.discharge_voltage_limit_mv in
    let w = put_i16 (put_i16 w r.charge_current_limit_01a) r.discharge_current_limit_01a in
    put_u8 w (status r)

status-IsByte : (r : ChargeManagementResponse) → IsByte (status r)
unfolding status
status-IsByte r = ground arith

abbrev pub bit : Bool → ℕ
bit b = if b then 1 else 0

-- Each permission and request is a bit of its own in the status byte, and the low three bits are 0.
pub status-bits :
    (r : ChargeManagementResponse)
    → (status r / 0x80 ≡ bit r.charge_enabled)
      × (status r / 0x40 % 2 ≡ bit r.discharge_enabled)
      × (status r / 0x20 % 2 ≡ bit r.request_charge_immediately)
      × (status r / 0x10 % 2 ≡ bit r.request_charge_immediately_low)
      × (status r / 0x08 % 2 ≡ bit r.request_full_charge)
      × (status r % 0x08 ≡ 0)
unfolding status
status-bits r = ground arith

pub serialize-IsOutput :
    (r : ChargeManagementResponse) → IsByte r.command → IsOutput (serialize r [])
unfolding serialize
serialize-IsOutput r h =
    let voltages =
      put_u16-IsOutput r.discharge_voltage_limit_mv
        (put_u16-IsOutput r.charge_voltage_limit_mv (put_u8-IsOutput r.command empty-IsOutput h)) in
    let currents =
      put_u16-IsOutput (u16_of r.discharge_current_limit_01a)
        (put_u16-IsOutput (u16_of r.charge_current_limit_01a) voltages) in
    put_u8-IsOutput (status r) currents (status-IsByte r)
