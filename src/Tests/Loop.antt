-- ===== src/Tests/Loop.antt =====
-- Timers and the event loop: one handler that unwatches a descriptor, and one that counts.
use bms_bridge.Base.{
  false, ℕ, ◌+◌, ◌≡◌, refl, [], ◌∷◌, ◌++◌, Option, none, some, true, pos, negsuc, arith, max, ◌*◌,
  zero, suc, ◌<◌,
}
use bms_bridge.Timer.{Timerfds, arm, arm_periodic, disarm}
use bms_bridge.Timer.Arming.{nanoseconds, IsTimerfds, setting, arm-setting}
use bms_bridge.Dispatcher.{
  Dispatcher, new_dispatcher, watch, unwatch, ready, interrupted, on_batch, run, remove_fd,
}
use bms_bridge.Dispatcher.Registry.{handler_of-erase}
use bms_bridge.Dispatcher.Calls.{IsCall}
use bms_bridge.Dispatcher.Stopping.{Returns, run-stopped}
use bms_bridge.Dispatcher.Dropping.{Leaves, on_batch-unwatch}

-- The state of a timerfd is what it is set to.
abbrev set_to : Option ℕ → Option ℕ → Option (ℕ × ℕ) → Option (ℕ × ℕ)
set_to none interval old = old
set_to (some zero) interval old = none
set_to (some (suc value)) none old = old
set_to (some (suc value)) (some interval) old = some (suc value, interval)

abbrev timerfds : Timerfds (Option (ℕ × ℕ))
timerfds = record {
  settime = λ spec t. set_to (nanoseconds spec.it_value) (nanoseconds spec.it_interval) t;
  read = λ t. t;
}

set_to-positive :
    (value interval : ℕ) (t : Option (ℕ × ℕ))
    → 0 < value
    → set_to (some value) (some interval) t ≡ some (value, interval)
set_to-positive zero interval t p = absurd (omega arith)
set_to-positive (suc value) interval t p = refl

timerfds-IsTimerfds : IsTimerfds timerfds
timerfds-IsTimerfds = record {
  armed = λ t. t;
  arms = λ spec t value interval e f p. rw (e, f) (set_to-positive value interval t p);
  disarms = λ spec t e. rw e refl;
  refuses = λ spec t e. rw e refl;
}

arm-setting_example :
    let D = timerfds-IsTimerfds in
    (setting D (arm timerfds (pos 1500) (some none)) ≡ some (max 1 (1500 * 1000000), 0))
    × (setting D (arm_periodic timerfds (pos 1500) (some none))
        ≡ some (max 1 (1500 * 1000000), max 1 (1500 * 1000000)))
    × (arm timerfds (negsuc 1500) (some none) ≡ some none)
    × (arm_periodic timerfds (negsuc 1500) (some none) ≡ some none)
    × (setting D (disarm timerfds (some none)) ≡ none)
arm-setting_example = arm-setting timerfds-IsTimerfds 1500 none

data Handler : Type 0 where
  counts : Handler
  unwatches_seven : Handler

abbrev call : Handler → Dispatcher Handler × ℕ → Dispatcher Handler × ℕ
call counts (d, n) = (d, n + 1)
call unwatches_seven (d, n) = (unwatch 7 d, n)

call-IsCall : IsCall call
unfolding unwatch
call-IsCall = record {
  signal_fd = λ h s. elim h as (λ k. (call k s).0.signal_fd ≡ s.0.signal_fd) [
    | counts ↦ refl
    | unwatches_seven ↦ refl
  ];
  wake_fd = λ h s. elim h as (λ k. (call k s).0.wake_fd ≡ s.0.wake_fd) [
    | counts ↦ refl
    | unwatches_seven ↦ refl
  ];
  stopping =
      λ h s e. elim h as (λ k. (call k s).0.stopping ≡ true) [ counts ↦ e | unwatches_seven ↦ e ];
}

call-Leaves : Leaves call 7
unfolding unwatch
call-Leaves counts s e = e
call-Leaves unwatches_seven (d, n) e = handler_of-erase 7 7 d.handlers

abbrev watched : Dispatcher Handler
watched = (watch 8 unwatches_seven (watch 7 counts (new_dispatcher 3 4)).1).1

run-stopped_example : Returns call call-IsCall (ready (7 ∷ []) true ∷ []) (
    run call
      ((ready (7 ∷ []) false ∷ interrupted ∷ [])
        ++ ready (8 ∷ 3 ∷ 7 ∷ []) true ∷ ready (7 ∷ []) true ∷ [])
      (watched, 0))
unfolding watch
run-stopped_example =
    run-stopped call call-IsCall (ready (7 ∷ []) false ∷ interrupted ∷ [])
      (ready (7 ∷ []) true ∷ []) (8 ∷ 3 ∷ 7 ∷ []) (watched, 0) tt refl

-- The count stays 1: the event of 7 behind that of 8 is dropped.
run_count : (run call (ready (7 ∷ 8 ∷ 7 ∷ 3 ∷ []) true ∷ []) (watched, 0)).3 ≡ 1
unfolding run watch unwatch on_batch
run_count = refl

on_batch-unwatch_example :
    on_batch call true (7 ∷ 8 ∷ 7 ∷ []) (unwatch 7 watched, 0)
    ≡ on_batch call true (remove_fd 7 (7 ∷ 8 ∷ 7 ∷ [])) (unwatch 7 watched, 0)
unfolding watch
on_batch-unwatch_example =
    on_batch-unwatch call true 7 (7 ∷ 8 ∷ 7 ∷ []) watched 0 call-IsCall call-Leaves (λ e. cc)
      (λ e. cc)
