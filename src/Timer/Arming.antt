-- ===== src/Timer/Arming.antt =====
-- What a timer is set to.
use bms_bridge.Base.{
  ℕ, suc, ◌+◌, ◌-◌, ◌*◌, ◌/◌, ◌%◌, ◌<◌, max, ◌≡◌, refl, ap, ◌∙◌, Option, none, some, Bool-cases,
  inl, inr, ltb, leb, if◌then◌else◌, ℤ, pos, negsuc, arith,
}
use bms_bridge.Timer.{
  nonzero, below_second, Timespec, Itimerspec, value_of, arm_spec, periodic_spec, disarm_spec,
  Timerfds, arm, arm_periodic, disarm,
}

abbrev pub in_range : ℤ → ℤ → Option ℕ
in_range (pos sec) (pos ns) = if ltb ns 1000000000 then some (sec * 1000000000 + ns) else none
in_range (pos sec) (negsuc ns) = none
in_range (negsuc sec) ns = none

-- A setting's time, none where it is out of range.
abbrev pub nanoseconds : Timespec → Option ℕ
nanoseconds t = in_range t.tv_sec t.tv_nsec

below_second-pos : (n : ℕ) → below_second (pos n) ≡ pos (n % 1000 * 1000000)
unfolding below_second
below_second-pos n = ground arith

nonzero-nanoseconds :
    (s r : ℕ)
    → r < 1000
    → nanoseconds (nonzero (pos s) (pos (r * 1000000)))
      ≡ some (max 1 (s * 1000000000 + r * 1000000))
unfolding nonzero
nonzero-nanoseconds s r h = ground arith

value_of-nanoseconds : (n : ℕ) → nanoseconds (value_of (pos n)) ≡ some (max 1 (n * 1000000))
unfolding value_of
value_of-nanoseconds n =
    let sum : n / 1000 * 1000000000 + n % 1000 * 1000000 ≡ n * 1000000 = omega arith in
    rw (below_second-pos n)
      (nonzero-nanoseconds (n / 1000) (n % 1000) (omega arith) ∙ ap (λ k. some (max 1 k)) sum)

below_second-negative :
    (n : ℕ) → suc n / 1000 ≡ 0 → below_second (negsuc n) ≡ negsuc (suc n * 1000000 - 1)
unfolding below_second
below_second-negative n e = rw e (ground arith)

nonzero-negative : (k : ℕ) → nanoseconds (nonzero (pos 0) (negsuc k)) ≡ none
unfolding nonzero
nonzero-negative k = refl

nonzero-negsuc : (s : ℕ) (ns : ℤ) → nanoseconds (nonzero (negsuc s) ns) ≡ none
unfolding nonzero
nonzero-negsuc s ns = refl

value_of-negative : (n : ℕ) → nanoseconds (value_of (negsuc n)) ≡ none
unfolding value_of
value_of-negative n = elim (Bool-cases (leb (suc n / 1000) 0)) [
  | inl e ↦ rw (below_second-negative n (ground arith), e) (nonzero-negative (suc n * 1000000 - 1))
  | inr e ↦ rw e (nonzero-negsuc (suc n / 1000 - 1) (below_second (negsuc n)))
]

-- What timerfd_settime documents. `armed` is the time to the expiry, and from one to the next, 0 for
-- a timer that expires once; a value of 0 disarms, and one out of range changes nothing.
pub record IsTimerfds {T : Type 0} (K : Timerfds T) : Type 0 where
  pub armed : T → Option (ℕ × ℕ)
  pub arms :
      (spec : Itimerspec) (t : T) (value interval : ℕ)
      → nanoseconds spec.it_value ≡ some value
      → nanoseconds spec.it_interval ≡ some interval
      → 0 < value
      → armed (K.settime spec t) ≡ some (value, interval)
  pub disarms :
      (spec : Itimerspec) (t : T)
      → nanoseconds spec.it_value ≡ some 0
      → armed (K.settime spec t) ≡ none
  pub refuses :
      (spec : Itimerspec) (t : T) → nanoseconds spec.it_value ≡ none → K.settime spec t ≡ t

module _ {T : Type 0} {K : Timerfds T} (D : IsTimerfds K) where
  -- The setting of a timer that has a descriptor.
  abbrev pub setting : Option T → Option (ℕ × ℕ)
  setting none = none
  setting (some t) = D.armed t

  -- A timer that is armed for n ms, n not negative, expires once, in n ms, or in 1 ns for 0; armed
  -- with a period of n ms it expires in that time and then in each such time again, so that neither
  -- ever disarms it; with a negative time both leave it as it was; and disarm() disarms it.
  pub arm-setting :
      (n : ℕ) (t : T)
      → (setting (arm K (pos n) (some t)) ≡ some (max 1 (n * 1000000), 0))
        × (setting (arm_periodic K (pos n) (some t))
            ≡ some (max 1 (n * 1000000), max 1 (n * 1000000)))
        × (arm K (negsuc n) (some t) ≡ some t)
        × (arm_periodic K (negsuc n) (some t) ≡ some t)
        × (setting (disarm K (some t)) ≡ none)
  unfolding arm arm_periodic disarm arm_spec periodic_spec
  arm-setting n t =
      let value = value_of-nanoseconds n in
      let negative = value_of-negative n in
      (
        D.arms (arm_spec (pos n)) t (max 1 (n * 1000000)) 0 value refl (omega arith),
        D.arms (periodic_spec (pos n)) t (max 1 (n * 1000000)) (max 1 (n * 1000000)) value value
            (omega arith),
        ap some (D.refuses (arm_spec (negsuc n)) t negative),
        ap some (D.refuses (periodic_spec (negsuc n)) t negative),
        D.disarms disarm_spec t refl,
      )
