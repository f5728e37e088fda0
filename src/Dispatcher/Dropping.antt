-- ===== src/Dispatcher/Dropping.antt =====
-- Which events of a batch the dispatcher drops.
use bms_bridge.Base.{
  ℕ, ◌≡◌, ◌≢◌, refl, sym, ◌∙◌, List, [], ◌∷◌, subst, none, Bool, false, Bool-cases, inl, inr, ◌==◌,
  ==_refl, ==_iff, arith,
}
use bms_bridge.Dispatcher.{Dispatcher, handler_of, remove_fd, unwatch, on_event, on_batch}
use bms_bridge.Dispatcher.Calls.{IsCall, on_event_ind}
use bms_bridge.Dispatcher.Registry.{handler_of-erase}

module _ {H W : Type 0} (call : H → Dispatcher H × W → Dispatcher H × W) where
  -- No handler registers the descriptor.
  abbrev pub Leaves : ℕ → Type 0
  Leaves fd =
      (h : H) (s : Dispatcher H × W)
      → handler_of fd s.0.handlers ≡ none
      → handler_of fd (call h s).0.handlers ≡ none

  -- A descriptor that no handler has, and that is not one of the dispatcher's own.
  pub record IsStale (fd : ℕ) (d : Dispatcher H) : Type 0 where
    pub not_signal : fd ≢ d.signal_fd
    pub not_wake : fd ≢ d.wake_fd
    pub unhandled : handler_of fd d.handlers ≡ none

  on_event-stale :
      (reads : Bool) (fd : ℕ) (d : Dispatcher H) (w : W)
      → IsStale fd d
      → on_event call reads fd (d, w) ≡ (d, w)
  unfolding on_event
  on_event-stale reads fd d w t =
      let signal : (fd == d.signal_fd) ≡ false = ground (arith, t.not_signal) in
      let wake : (fd == d.wake_fd) ≡ false = ground (arith, t.not_wake) in
      rw (signal, wake, t.unhandled) refl

  on_event-IsStale :
      (reads : Bool) (fd k : ℕ) (s : Dispatcher H × W)
      → IsCall call
      → Leaves fd
      → IsStale fd s.0
      → IsStale fd (on_event call reads k s).0
  on_event-IsStale reads fd k (d, w) C l t =
      on_event_ind call (λ u. IsStale fd u.0) reads k d w
        (record { not_signal = t.not_signal; not_wake = t.not_wake; unhandled = t.unhandled })
        (record { not_signal = t.not_signal; not_wake = t.not_wake; unhandled = t.unhandled }) t
        (λ h. record {
          not_signal = λ e. t.not_signal (e ∙ C.signal_fd h (d, w));
          not_wake = λ e. t.not_wake (e ∙ C.wake_fd h (d, w));
          unhandled = l h (d, w) t.unhandled;
        })

  on_batch-stale :
      (reads : Bool) (fd : ℕ) (fds : List ℕ) (s : Dispatcher H × W)
      → IsCall call
      → Leaves fd
      → IsStale fd s.0
      → on_batch call reads fds s ≡ on_batch call reads (remove_fd fd fds) s
  unfolding on_batch remove_fd
  on_batch-stale reads fd [] s C l t = refl
  on_batch-stale reads fd (k ∷ fds) (d, w) C l t = elim (Bool-cases (k == fd)) [
    | inl same ↦
        let e : on_event call reads k (d, w) ≡ (d, w) =
          subst (λ j. on_event call reads j (d, w) ≡ (d, w)) (sym ((==_iff k fd).0 same))
            (on_event-stale reads fd d w t) in
        rw (same, e) (on_batch-stale reads fd fds (d, w) C l t)
    | inr other ↦ rw other (
        on_batch-stale reads fd fds (on_event call reads k (d, w)) C l
          (on_event-IsStale reads fd k (d, w) C l t))
  ]

  -- Behind the unwatching of a descriptor that is not one of the dispatcher's own, and unless a
  -- handler watches it again, the rest of a batch does the same as without the events of that
  -- descriptor, of which epoll has told before.
  pub on_batch-unwatch :
      (reads : Bool) (fd : ℕ) (fds : List ℕ) (d : Dispatcher H) (w : W)
      → IsCall call
      → Leaves fd
      → fd ≢ d.signal_fd
      → fd ≢ d.wake_fd
      → on_batch call reads fds (unwatch fd d, w)
        ≡ on_batch call reads (remove_fd fd fds) (unwatch fd d, w)
  unfolding unwatch
  on_batch-unwatch reads fd fds d w C l m n =
      on_batch-stale reads fd fds (unwatch fd d, w) C l
        (record {
          not_signal = m;
          not_wake = n;
          unhandled = handler_of-erase fd fd d.handlers ∙ rw (==_refl fd) refl;
        })
