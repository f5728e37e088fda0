-- ===== src/Pylontech/Responder/Capacity.antt =====
-- Capacities in sixteen bits: the scaling of one module, and the count of modules.
use bms_bridge.Base.{
  ℕ, ◌+◌, ◌-◌, ◌*◌, ◌/◌, ◌≤◌, ◌<◌, ◌≡◌, leb, u32, arith, Bool-cases, inl, inr, true, false,
}
use native.Mathlib.Nat.{div-le_of_le-mul, le-div_iff_mul-le, div-mul-le_self, le_trans}
use bms_bridge.Pylontech.Responder.{
  ScaledCapacity, cap_u16_max, scale_capacity_to_u16, module_count_for_capacity,
}

-- The quotient by the rounded-up count of limits is within the limit.
ceil_div-le : (t : ℕ) → t / ((t + 64999) / 65000) ≤ 65000
ceil_div-le t = div-le_of_le-mul ((t + 64999) / 65000) (omega arith)

pub div_mono : (k : ℕ) {m n : ℕ} → 0 < k → m ≤ n → m / k ≤ n / k
div_mono k {m} {n} pos h = (le-div_iff_mul-le pos).1 (le_trans (div-mul-le_self m k) h)

-- The scaled pair is the pair divided by one positive factor, in order and within the limit.
pub record IsScaled (total remain : ℕ) (s : ScaledCapacity) : Type 0 where
  pub factor : ℕ
  pub positive : 0 < factor
  pub total_eq : s.total_mah ≡ total / factor
  pub remain_eq : s.remain_mah ≡ remain / factor
  pub ordered : s.remain_mah ≤ s.total_mah
  pub within : s.total_mah ≤ cap_u16_max

-- For a pack whose remaining charge is at most its total, and a total that the sum in uint32_t
-- can hold, both scaled fields are the pack's divided by one positive factor, with nothing
-- truncated; they keep their order and fit the limit.
pub scale_capacity-IsScaled :
    (total remain : ℕ)
    → remain ≤ total
    → total + 64999 < 4294967296
    → IsScaled total remain (scale_capacity_to_u16 total remain)
unfolding scale_capacity_to_u16
scale_capacity-IsScaled total remain h fits = elim (Bool-cases (leb total 65000)) [
  | inl small ↦ rw small (record {
    factor = 1;
    positive = omega arith;
    total_eq = ground arith;
    remain_eq = ground arith;
    ordered = ground arith;
    within = ground arith;
  })
  | inr large ↦ rw large (record {
    factor = scale;
    positive = positive large;
    total_eq = omega (arith, total_fits);
    remain_eq = omega (arith, total_fits, ordered large);
    ordered = omega (arith, total_fits, ordered large);
    within = omega (arith, total_fits);
  })
]
  where
    scale : ℕ
    scale = u32 (total + cap_u16_max - 1) / cap_u16_max

    positive : leb total 65000 ≡ false → 0 < scale
    positive large = ground arith

    scale_eq : scale ≡ (total + 64999) / 65000
    scale_eq = omega arith

    total_fits : total / scale ≤ 65000
    total_fits = rw scale_eq (ceil_div-le total)

    ordered : leb total 65000 ≡ false → remain / scale ≤ total / scale
    ordered large = div_mono scale (positive large) h

-- At least one module and at most 255.
pub module_count_bounds :
    (total : ℕ)
    → total + 64999 < 4294967296
    → (1 ≤ module_count_for_capacity total) × (module_count_for_capacity total ≤ 255)
unfolding module_count_for_capacity
module_count_bounds total h = ground arith

module_count-large :
    (total : ℕ)
    → total ≤ 255 * cap_u16_max
    → leb total 65000 ≡ false
    → module_count_for_capacity total ≡ (total + 64999) / 65000
unfolding module_count_for_capacity
module_count-large total h large = rw large (omega arith)

module_count-small : (total : ℕ) → leb total 65000 ≡ true → module_count_for_capacity total ≡ 1
unfolding module_count_for_capacity
module_count-small total small = rw small

pub module_share-le :
    (total : ℕ) → total ≤ 255 * cap_u16_max → total / module_count_for_capacity total ≤ cap_u16_max
module_share-le total h = elim (Bool-cases (leb total 65000)) [
  | inl small ↦ rw (module_count-small total small) (ground arith)
  | inr large ↦ rw (module_count-large total h large) (ceil_div-le total)
]

scale-small :
    (t r : ℕ)
    → t ≤ cap_u16_max
    → r ≤ cap_u16_max
    → scale_capacity_to_u16 t r ≡ record { total_mah = t; remain_mah = r }
unfolding scale_capacity_to_u16
scale-small t r ht hr = ground arith

-- A pack of up to 255 modules' capacity, divided by its own module count, needs no scaling: the
-- inverter's fields are the module's share itself.
pub scale-module_count :
    (total remain : ℕ)
    → total ≤ 255 * cap_u16_max
    → remain ≤ cap_u16_max
    → scale_capacity_to_u16 (total / module_count_for_capacity total) remain
      ≡ record { total_mah = total / module_count_for_capacity total; remain_mah = remain }
scale-module_count total remain h r = scale-small _ remain (module_share-le total h) r
