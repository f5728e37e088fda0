-- ===== src/Dispatcher/Calls.antt =====
-- What an event can do, and what a handler of the dispatcher is assumed to leave alone.
use bms_bridge.Base.{ℕ, ◌≡◌, Bool, true, false, Bool-cases, Option-cases, inl, inr, ◌==◌}
use bms_bridge.Dispatcher.{Dispatcher, handler_of, on_event}

module _ {H W : Type 0} (call : H → Dispatcher H × W → Dispatcher H × W) where
  -- What the methods of the dispatcher leave alone: its own descriptors, and a stop that was asked for.
  pub record IsCall : Type 0 where
    pub signal_fd : (h : H) (s : Dispatcher H × W) → (call h s).0.signal_fd ≡ s.0.signal_fd
    pub wake_fd : (h : H) (s : Dispatcher H × W) → (call h s).0.wake_fd ≡ s.0.wake_fd
    pub stopping :
        (h : H) (s : Dispatcher H × W) → s.0.stopping ≡ true → (call h s).0.stopping ≡ true

  -- The four things that an event can do.
  pub on_event_ind :
      (P : Dispatcher H × W → Type 0) (reads : Bool) (fd : ℕ) (d : Dispatcher H) (w : W)
      → P (record d { stopping = true }, w)
      → P (record d { wake_signalled = false }, w)
      → P (d, w)
      → ((h : H) → P (call h (d, w)))
      → P (on_event call reads fd (d, w))
  unfolding on_event
  on_event_ind P reads fd d w signal wake none_there calls = elim (Bool-cases (fd == d.signal_fd)) [
    | inl e ↦ elim (Bool-cases reads) [ inl f ↦ rw (e, f) signal | inr f ↦ rw (e, f) none_there ]
    | inr e ↦ elim (Bool-cases (fd == d.wake_fd)) [
      | inl f ↦ rw (e, f) wake
      | inr f ↦ elim (Option-cases (handler_of fd d.handlers)) [
        | inl n ↦ rw (e, f, n) none_there
        | inr (h, n) ↦ rw (e, f, n) (calls h)
      ]
    ]
  ]
