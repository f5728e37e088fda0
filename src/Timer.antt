-- ===== src/Timer.antt =====
-- Timer of src/timer.cpp: a timerfd, and the time it is set to.
--
-- The kernel is a parameter only in what it does with a setting, which timerfd_settime documents: a
-- value of 0 disarms, one with nanoseconds out of range or negative seconds is refused and changes
-- nothing. A duration is a signed number of milliseconds, and a setting has seconds and nanoseconds.
pub mod Arming
use bms_bridge.Base.{
  ℕ, ◌+◌, ◌-◌, ◌*◌, ◌/◌, ◌%◌, ◌≤◌, ◌<◌, ◌≡◌, refl, Option, none, some, Bool, true, false, ltb, ◌==◌,
  ◌&&◌, if◌then◌else◌, ℤ, pos, negsuc, ◌-ℤ◌, mul_ℤ, div_ℤ, arith,
}

pub record Timespec : Type 0 where
  pub tv_sec : ℤ
  pub tv_nsec : ℤ

pub record Itimerspec : Type 0 where
  pub it_value : Timespec
  pub it_interval : Timespec

abbrev pub zero_time : Timespec
zero_time = record { tv_sec = pos 0; tv_nsec = pos 0 }

abbrev is_zero : ℤ → Bool
is_zero (pos n) = n == 0
is_zero (negsuc n) = false

-- A value of 0 would disarm.
unfoldable pub nonzero : (sec ns : ℤ) → Timespec
nonzero sec ns =
    if is_zero sec && is_zero ns
    then record { tv_sec = sec; tv_nsec = pos 1 }
    else record { tv_sec = sec; tv_nsec = ns }

-- duration_cast<nanoseconds>(d - sec)
unfoldable pub below_second : ℤ → ℤ
below_second d = mul_ℤ (d -ℤ mul_ℤ (div_ℤ d 1000) 1000) 1000000

unfoldable pub value_of : ℤ → Timespec
unfolding nonzero below_second
value_of d = nonzero (div_ℤ d 1000) (below_second d)

unfoldable pub arm_spec : ℤ → Itimerspec
unfolding value_of
arm_spec d = record { it_value = value_of d; it_interval = zero_time }

unfoldable pub periodic_spec : ℤ → Itimerspec
unfolding value_of
periodic_spec period =
    let value = value_of period in record { it_value = value; it_interval = value }

abbrev pub disarm_spec : Itimerspec
disarm_spec = record { it_value = zero_time; it_interval = zero_time }

-- The calls of a timerfd with state `T`.
pub record Timerfds (T : Type 0) : Type 0 where
  pub settime : Itimerspec → T → T
  pub read : T → T

-- What arm() leaves of a timer that is its delay while it is armed: a negative delay leaves it as it
-- was, since its setting is refused.
abbrev pub rearm : ℤ → Option ℕ → Option ℕ
rearm (pos n) timer = some n
rearm (negsuc n) timer = timer

-- A delay that a timer can be armed with.
abbrev pub IsDelay : ℤ → Type 0
IsDelay (pos n) = Unit
IsDelay (negsuc n) = ⊥

-- A timer is none where it has no descriptor.
module _ {T : Type 0} (K : Timerfds T) where
  abbrev pub set : Itimerspec → Option T → Option T
  set spec none = none
  set spec (some t) = some (K.settime spec t)

  unfoldable pub arm : ℤ → Option T → Option T
  unfolding arm_spec
  arm d timer = set (arm_spec d) timer

  unfoldable pub arm_periodic : ℤ → Option T → Option T
  unfolding periodic_spec
  arm_periodic period timer = set (periodic_spec period) timer

  unfoldable pub disarm : Option T → Option T
  disarm timer = set disarm_spec timer

  unfoldable pub consume : Option T → Option T
  consume none = none
  consume (some t) = some (K.read t)
