-- ===== src/Dispatcher/Registry.antt =====
-- The registry of the dispatcher: what epoll watches, and which handler an event calls.
use bms_bridge.Base.{
  ℕ, ◌≡◌, ◌≢◌, List, [], ◌∷◌, none, false, Bool-cases, inl, inr, ◌==◌, ◌||◌, if◌then◌else◌, ℤ,
  arith,
}
use bms_bridge.Battery.State.{has_value}
use bms_bridge.Dispatcher.{
  Dispatcher, new_dispatcher, handler_of, has_fd, emplace, erase, remove_fd, watch, unwatch,
  add_timer, stop,
}

has_fd-remove_fd :
    (fd k : ℕ) (ks : List ℕ)
    → has_fd fd (remove_fd k ks) ≡ (if k == fd then false else has_fd fd ks)
unfolding remove_fd
has_fd-remove_fd fd k [] = ground arith
has_fd-remove_fd fd k (j ∷ ks) = ground (arith, has_fd-remove_fd fd k ks)

module _ {H : Type 0} where
  pub handler_of-erase :
      (fd k : ℕ) (hs : List (ℕ × H))
      → handler_of fd (erase k hs) ≡ (if k == fd then none else handler_of fd hs)
  unfolding erase
  handler_of-erase fd k [] = ground arith
  handler_of-erase fd k ((j, h) ∷ hs) = ground (arith, handler_of-erase fd k hs)

  handler_of-emplace :
      (fd k : ℕ) (h : H) (hs : List (ℕ × H))
      → has_value (handler_of fd (emplace k h hs)) ≡ (k == fd || has_value (handler_of fd hs))
  unfolding emplace
  handler_of-emplace fd k h hs = ground arith

  -- epoll watches the signals, the wake event, and exactly the descriptors that have a handler.
  abbrev pub IsRegistry : Dispatcher H → Type 0
  IsRegistry d =
      (fd : ℕ)
      → has_fd fd d.polled
        ≡ (d.signal_fd == fd || (d.wake_fd == fd || has_value (handler_of fd d.handlers)))

  -- The states that the dispatcher's calls lead to; a watch that throws leaves one too, and nobody
  -- unwatches the descriptors of its own.
  pub data ReachableDispatcher (signal_fd wake_fd : ℕ) : Dispatcher H → Type 0 where
    made : ReachableDispatcher signal_fd wake_fd (new_dispatcher signal_fd wake_fd)
    watches :
        (fd : ℕ) (h : H) {d : Dispatcher H}
        → ReachableDispatcher signal_fd wake_fd d
        → ReachableDispatcher signal_fd wake_fd (watch fd h d).1
    unwatches :
        (fd : ℕ) {d : Dispatcher H}
        → fd ≢ d.signal_fd
        → fd ≢ d.wake_fd
        → ReachableDispatcher signal_fd wake_fd d
        → ReachableDispatcher signal_fd wake_fd (unwatch fd d)
    adds_timer :
        (fd : ℕ) (period_ms : ℤ) (on_tick : H) {d : Dispatcher H}
        → ReachableDispatcher signal_fd wake_fd d
        → ReachableDispatcher signal_fd wake_fd (add_timer fd period_ms on_tick d).1
    stops :
        {d : Dispatcher H}
        → ReachableDispatcher signal_fd wake_fd d
        → ReachableDispatcher signal_fd wake_fd (stop d)

  watch-IsRegistry :
      (fd : ℕ) (h : H) (d : Dispatcher H) → IsRegistry d → IsRegistry (watch fd h d).1
  unfolding watch
  watch-IsRegistry fd h d r k = ground (arith, r k, r fd, handler_of-emplace k fd h d.handlers)

  unwatch-IsRegistry :
      (fd : ℕ) (d : Dispatcher H)
      → fd ≢ d.signal_fd
      → fd ≢ d.wake_fd
      → IsRegistry d
      → IsRegistry (unwatch fd d)
  unfolding unwatch
  unwatch-IsRegistry fd d n m r k =
      ground (arith, r k, handler_of-erase k fd d.handlers, has_fd-remove_fd k fd d.polled)

  add_timer-IsRegistry :
      (fd : ℕ) (period_ms : ℤ) (on_tick : H) (d : Dispatcher H)
      → IsRegistry d
      → IsRegistry (add_timer fd period_ms on_tick d).1
  unfolding add_timer
  add_timer-IsRegistry fd period_ms on_tick d r =
      let kept = watch-IsRegistry fd on_tick d r in
      elim (Bool-cases (watch fd on_tick d).0) [ inl e ↦ rw e kept | inr e ↦ rw e kept ]

  -- In every state that the calls of the dispatcher lead to, also where one throws: epoll watches the
  -- signals, the wake event, and exactly the descriptors that have a handler.
  pub reachable-IsRegistry :
      {signal_fd wake_fd : ℕ} (d : Dispatcher H)
      → ReachableDispatcher signal_fd wake_fd d
      → IsRegistry d
  unfolding stop
  reachable-IsRegistry {signal_fd} {wake_fd} d made = λ fd. ground arith
  reachable-IsRegistry _ (watches fd h {d} r) = watch-IsRegistry fd h d (reachable-IsRegistry d r)
  reachable-IsRegistry _ (unwatches fd {d} n m r) =
      unwatch-IsRegistry fd d n m (reachable-IsRegistry d r)
  reachable-IsRegistry _ (adds_timer fd period_ms on_tick {d} r) =
      add_timer-IsRegistry fd period_ms on_tick d (reachable-IsRegistry d r)
  reachable-IsRegistry _ (stops {d} r) = reachable-IsRegistry d r
