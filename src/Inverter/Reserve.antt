-- ===== src/Inverter/Reserve.antt =====
-- The figures that a reserve battery reports: reserve_pack and module_pack of the Inverter.
use bms_bridge.Base.{ℕ, ◌*◌, ◌/◌, ◌≤◌, ◌<◌, ◌≡◌, refl, u32, pos, arith}
use native.Mathlib.Nat.{div-le_of_le-mul, le_trans, zero-div}
use bms_bridge.Jk.Types.{JkCellInfo, JkPackInfo}
use bms_bridge.Pylontech.Frame.{PylontechFrame}
use bms_bridge.Pylontech.Payload.Analog.{AnalogResponse}
use bms_bridge.Pylontech.Responder.{analog_response, module_count_for_capacity, clamp_i16}
use bms_bridge.Pylontech.Responder.Capacity.{
  div_mono, module_count_bounds, module_share-le, scale-module_count,
}
use bms_bridge.Inverter.{Battery, capacity_mah, reserve_pack, module_pack}
use bms_bridge.Inverter.Addresses.{count_of}

capacity_mah-pos :
    (b : Battery) (ah : ℕ) → b.capacity ≡ pos ah → ah ≤ 16575 → capacity_mah b ≡ ah * 1000
unfolding capacity_mah
capacity_mah-pos b ah e le = rw e (omega arith)

-- Neither product overflows.
charged_bound : (cap soc : ℕ) → soc ≤ 100 → cap ≤ 16575000 → cap * soc ≤ 1657500000
charged_bound cap soc h k = grind arith

charged_eq : (cap soc : ℕ) → soc ≤ 100 → cap ≤ 16575000 → u32 (cap * soc) / 100 ≡ cap * soc / 100
charged_eq cap soc h k = omega (arith, charged_bound cap soc h k)

charged-le : (cap soc : ℕ) → soc ≤ 100 → cap * soc / 100 ≤ cap
charged-le cap soc h = div-le_of_le-mul 100 (grind arith)

-- The analog answer of one module of a reserve of up to 16575 Ah: no current, its share of the
-- configured capacity as the total, and the same share of that capacity times the mirrored state of
-- charge as the remainder, never more than the total. No cast loses anything.
pub record IsReserveShare (ah soc n : ℕ) (a : AnalogResponse) : Type 0 where
  pub current : a.current_01a ≡ pos 0
  pub total : a.total_capacity_mah ≡ ah * 1000 / n
  pub remain : a.remain_capacity_mah ≡ ah * 1000 * soc / 100 / n
  pub ordered : a.remain_capacity_mah ≤ a.total_capacity_mah

pub analog_response-IsReserveShare :
    (req : PylontechFrame) (b : Battery) (ah : ℕ) (cells : JkCellInfo) (pack : JkPackInfo)
    → b.capacity ≡ pos ah
    → ah ≤ 16575
    → pack.state_of_charge_pct ≤ 100
    → IsReserveShare ah pack.state_of_charge_pct
        (count_of b)
        (analog_response req cells (module_pack (count_of b) (reserve_pack b pack)))
unfolding analog_response module_pack reserve_pack clamp_i16
analog_response-IsReserveShare req b ah cells pack e le soc =
    let pct = pack.state_of_charge_pct in
    let cap = capacity_mah-pos b ah e le in
    let n = module_count_for_capacity (ah * 1000) in
    let left : u32 (ah * 1000 * pct) / 100 ≡ ah * 1000 * pct / 100 =
      charged_eq (ah * 1000) pct soc (omega arith) in
    let n_pos : 0 < n = omega (arith, module_count_bounds (ah * 1000) (omega arith)) in
    let less = div_mono n n_pos (charged-le (ah * 1000) pct soc) in
    let share = module_share-le (ah * 1000) (omega arith) in
    let scaled =
      scale-module_count (ah * 1000) (ah * 1000 * pct / 100 / n) (omega arith)
        (le_trans less share) in
    record {
      current = rw (zero-div (count_of b)) refl;
      total = rw (cap, left, scaled) refl;
      remain = rw (cap, left, scaled) refl;
      ordered = rw (cap, left, scaled) less;
    }
