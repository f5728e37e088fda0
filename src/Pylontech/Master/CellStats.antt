-- ===== src/Pylontech/Master/CellStats.antt =====
-- The statistics that fill_cell_stats of src/pylontech_master.cpp computes.
use bms_bridge.Base.{
  ℕ, zero, suc, ◌+◌, ◌*◌, ◌/◌, ◌≤◌, ◌<◌, List, [], ◌∷◌, some, true, false, ltb, if◌then◌else◌,
  length, get_elem?, All, AreWords, IsWord, u8, u16, pos, ◌-ℤ◌, u16_of, ◌≡◌, refl, ap, subst,
  some_inj, arith,
}
use bms_bridge.Jk.Types.{JkCellInfo}
use bms_bridge.Pylontech.Master.{Stats, stats_step, stats_loop, stats_of, fill_cell_stats}

abbrev sum_of : List ℕ → ℕ
sum_of [] = 0
sum_of (v ∷ vs) = v + sum_of vs

abbrev pub Within : (lo hi : ℕ) → List ℕ → Type 0
Within lo hi = All (λ v. (lo ≤ v) × (v ≤ hi))

-- Both ends only widen, and every voltage read lies between them.
record Widened (vs : List ℕ) (s t : Stats) : Type 0 where
  lower : t.lo ≤ s.lo
  upper : s.hi ≤ t.hi
  within : Within t.lo t.hi vs

step-Widened :
    (i v : ℕ) (s t : Stats)
    → t.lo ≤ (stats_step i v s).lo
    → (stats_step i v s).hi ≤ t.hi
    → (t.lo ≤ s.lo) × (s.hi ≤ t.hi) × (t.lo ≤ v) × (v ≤ t.hi)
unfolding stats_step
step-Widened i v s t h k = ground arith

stats_loop-Widened : (i : ℕ) (vs : List ℕ) (s : Stats) → Widened vs s (stats_loop i vs s)
unfolding stats_loop
stats_loop-Widened i [] s = record { lower = omega arith; upper = omega arith; within = tt }
stats_loop-Widened i (v ∷ vs) s =
    let rest = stats_loop-Widened (i + 1) vs (stats_step i v s) in
    let t = stats_loop (i + 1) vs (stats_step i v s) in
    let head = step-Widened i v s t rest.lower rest.upper in
    record { lower = head.0; upper = head.1; within = ((head.2, head.3), rest.within) }

-- Each index names the place of its voltage.
abbrev Indexed : List ℕ → Stats → Type 0
Indexed all s = (get_elem? all s.lo_idx ≡ some s.lo) × (get_elem? all s.hi_idx ≡ some s.hi)

stats_step-Indexed :
    (all : List ℕ) (i v : ℕ) (s : Stats)
    → i < 256
    → get_elem? all i ≡ some v
    → Indexed all s
    → Indexed all (stats_step i v s)
unfolding stats_step
stats_step-Indexed all i v s lt e (p, q) =
    let u8_small : u8 i ≡ i = omega arith in
    let e' : get_elem? all (u8 i) ≡ some v = rw u8_small e in
    (
      elim (ltb v s.lo)
          as (λ b. get_elem? all (if b then u8 i else s.lo_idx) ≡ some (if b then v else s.lo)) [
            | true ↦ e'
            | false ↦ p
          ],
      elim (ltb s.hi v)
          as (λ b. get_elem? all (if b then u8 i else s.hi_idx) ≡ some (if b then v else s.hi)) [
            | true ↦ e'
            | false ↦ q
          ],
    )

stats_loop-Indexed :
    (all : List ℕ) (i : ℕ) (vs : List ℕ) (s : Stats)
    → i + length vs ≤ 256
    → ((k : ℕ) → get_elem? all (i + k) ≡ get_elem? vs k)
    → Indexed all s
    → Indexed all (stats_loop i vs s)
unfolding stats_loop
stats_loop-Indexed all i [] s le at h = h
stats_loop-Indexed all i (v ∷ vs) s le at h =
    stats_loop-Indexed all (i + 1) vs (stats_step i v s) (omega arith)
      (λ k. subst (λ j. get_elem? all j ≡ get_elem? vs k) (omega arith) (at (suc k)))
      (stats_step-Indexed all i v s (omega arith)
        (subst (λ j. get_elem? all j ≡ some v) (omega arith) (at 0)) h)

stats_step-sum : (i v : ℕ) (s : Stats) → s.sum + v < 4294967296 → (stats_step i v s).sum ≡ s.sum + v
unfolding stats_step
stats_step-sum i v s lt = omega arith

stats_loop-sum :
    (i : ℕ) (vs : List ℕ) (s : Stats)
    → s.sum + sum_of vs < 4294967296
    → (stats_loop i vs s).sum ≡ s.sum + sum_of vs
unfolding stats_loop
stats_loop-sum i [] s lt = omega arith
stats_loop-sum i (v ∷ vs) s lt =
    let e : (stats_step i v s).sum ≡ s.sum + v = stats_step-sum i v s (omega arith) in
    rw (stats_loop-sum (i + 1) vs (stats_step i v s) (omega arith), e) (omega arith)

sum_of-Within :
    (lo hi : ℕ) (vs : List ℕ)
    → Within lo hi vs
    → (lo * length vs ≤ sum_of vs) × (sum_of vs ≤ hi * length vs)
sum_of-Within lo hi [] h = (omega arith, omega arith)
sum_of-Within lo hi (v ∷ vs) h = let rest = sum_of-Within lo hi vs h.1 in (grind arith, grind arith)

-- What the statistics promise of a pack's voltages.
pub record Describes (vs : List ℕ) (c : JkCellInfo) : Type 0 where
  pub lo : ℕ
  pub hi : ℕ
  pub within : Within lo hi vs
  pub lowest : get_elem? vs c.min_voltage_cell_idx ≡ some lo
  pub highest : get_elem? vs c.max_voltage_cell_idx ≡ some hi
  pub spread : c.voltage_diff_mv + lo ≡ hi
  pub average : (lo ≤ c.average_voltage_mv) × (c.average_voltage_mv ≤ hi)

AreWords-sum_of : (vs : List ℕ) → AreWords vs → sum_of vs ≤ 65535 * length vs
AreWords-sum_of [] h = omega arith
AreWords-sum_of (v ∷ vs) h = let rest = AreWords-sum_of vs h.1 in let here = h.0 in omega arith

-- The mean of values between two bounds lies between them.
mean-between :
    (lo hi n sum : ℕ)
    → lo * suc n ≤ sum
    → sum ≤ hi * suc n
    → (lo ≤ sum / suc n) × (sum / suc n ≤ hi)
mean-between lo hi n sum h k = (grind arith, grind arith)

Within-head : (lo hi v : ℕ) (vs : List ℕ) → Within lo hi (v ∷ vs) → lo ≤ v
Within-head lo hi v vs h = h.0.0

-- The largest voltage is one of them, so it is a word.
Within-hi : (hi : ℕ) (vs : List ℕ) (k : ℕ) → AreWords vs → get_elem? vs k ≡ some hi → IsWord hi
Within-hi hi [] k h e = cc
Within-hi hi (v ∷ vs) zero h e = subst IsWord (some_inj e) h.0
Within-hi hi (v ∷ vs) (suc k) h e = Within-hi hi vs k h.1 e

filled-Describes :
    (c : JkCellInfo) (v : ℕ) (vs : List ℕ) (t : Stats)
    → Within t.lo t.hi (v ∷ vs)
    → Indexed (v ∷ vs) t
    → IsWord t.hi
    → t.sum ≡ sum_of (v ∷ vs)
    → Describes (v ∷ vs) (record c {
      average_voltage_mv = u16 (t.sum / length (v ∷ vs));
      voltage_diff_mv = u16_of (pos t.hi -ℤ pos t.lo);
      max_voltage_cell_idx = t.hi_idx;
      min_voltage_cell_idx = t.lo_idx;
    })
filled-Describes c v vs t within index word total =
    let sums = sum_of-Within t.lo t.hi (v ∷ vs) within in
    let mean = mean-between t.lo t.hi (length vs) (sum_of (v ∷ vs)) sums.0 sums.1 in
    let mean_eq : t.sum / suc (length vs) ≡ sum_of (v ∷ vs) / suc (length vs) = rw total refl in
    let ordered : (t.lo ≤ v) × (v ≤ t.hi) = within.0 in
    record {
      lo = t.lo;
      hi = t.hi;
      within = within;
      lowest = index.0;
      highest = index.1;
      spread = ground arith;
      average = (omega (arith, mean_eq, mean.0, mean.1), omega (arith, mean_eq, mean.0, mean.1));
    }

-- For a pack of at most 256 cells, whose voltages are words: the lowest and the highest voltage
-- stand at the indices reported, every voltage lies between them, the spread is their difference,
-- and the average lies between them.
pub fill_cell_stats-Describes :
    (c : JkCellInfo) (v : ℕ) (vs : List ℕ)
    → c.voltages_mv ≡ v ∷ vs
    → AreWords (v ∷ vs)
    → length (v ∷ vs) ≤ 256
    → Describes (v ∷ vs) (fill_cell_stats c)
unfolding fill_cell_stats
fill_cell_stats-Describes c v vs e words le =
    let first : Stats = record { sum = 0; lo = v; hi = v; lo_idx = 0; hi_idx = 0 } in
    let t = stats_of v vs in
    let wide = stats_loop-Widened 0 (v ∷ vs) first in
    let index =
      stats_loop-Indexed (v ∷ vs) 0 (v ∷ vs) first (omega (arith, le))
        (λ k. ap (get_elem? (v ∷ vs)) (omega arith)) (refl, refl) in
    let small = AreWords-sum_of (v ∷ vs) words in
    let total = stats_loop-sum 0 (v ∷ vs) first (omega arith) in
    let sums = sum_of-Within t.lo t.hi (v ∷ vs) wide.within in
    let word = Within-hi t.hi (v ∷ vs) t.hi_idx words index.1 in
    rw (e) (
      filled-Describes (record c { voltages_mv = v ∷ vs }) v vs t wide.within index word
        (omega (arith, total)))
