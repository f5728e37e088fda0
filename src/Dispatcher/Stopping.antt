-- ===== src/Dispatcher/Stopping.antt =====
-- How the event loop ends.
use bms_bridge.Base.{
  ℕ, ◌≡◌, refl, ap, ◌∙◌, List, [], ◌∷◌, ◌++◌, append_assoc, subst, Bool, true, Bool-cases, inl, inr,
  ◌==◌,
}
use bms_bridge.Dispatcher.{
  Dispatcher, has_fd, Wait, ready, interrupted, failed, Ended, stopped, on_event, on_batch, run,
}
use bms_bridge.Dispatcher.Calls.{IsCall, on_event_ind}

-- The outcomes among which epoll_wait does not fail.
abbrev pub NoneFailed : List Wait → Type 0
NoneFailed [] = Unit {0}
NoneFailed (ready fds reads ∷ waits) = NoneFailed waits
NoneFailed (interrupted ∷ waits) = NoneFailed waits
NoneFailed (failed ∷ waits) = ⊥

module _ {H W : Type 0} (call : H → Dispatcher H × W → Dispatcher H × W) (C : IsCall call) where
  on_event-signal_fd :
      (reads : Bool) (fd : ℕ) (s : Dispatcher H × W)
      → (on_event call reads fd s).0.signal_fd ≡ s.0.signal_fd
  on_event-signal_fd reads fd (d, w) =
      on_event_ind call (λ t. t.0.signal_fd ≡ d.signal_fd) reads fd d w refl refl refl
        (λ h. C.signal_fd h (d, w))

  on_event-stopping :
      (reads : Bool) (fd : ℕ) (s : Dispatcher H × W)
      → s.0.stopping ≡ true
      → (on_event call reads fd s).0.stopping ≡ true
  on_event-stopping reads fd (d, w) e =
      on_event_ind call (λ t. t.0.stopping ≡ true) reads fd d w refl e e
        (λ h. C.stopping h (d, w) e)

  on_batch-signal_fd :
      (reads : Bool) (fds : List ℕ) (s : Dispatcher H × W)
      → (on_batch call reads fds s).0.signal_fd ≡ s.0.signal_fd
  unfolding on_batch
  on_batch-signal_fd reads [] s = refl
  on_batch-signal_fd reads (fd ∷ fds) s =
      on_batch-signal_fd reads fds (on_event call reads fd s) ∙ on_event-signal_fd reads fd s

  on_batch-stopping :
      (reads : Bool) (fds : List ℕ) (s : Dispatcher H × W)
      → s.0.stopping ≡ true
      → (on_batch call reads fds s).0.stopping ≡ true
  unfolding on_batch
  on_batch-stopping reads [] s e = e
  on_batch-stopping reads (fd ∷ fds) s e =
      on_batch-stopping reads fds (on_event call reads fd s) (on_event-stopping reads fd s e)

  -- A signal that is read among the events of a batch stops the loop, whatever the others do.
  on_batch-signal :
      (fds : List ℕ) (s : Dispatcher H × W)
      → has_fd s.0.signal_fd fds ≡ true
      → (on_batch call true fds s).0.stopping ≡ true
  unfolding on_batch on_event
  on_batch-signal [] s e = cc
  on_batch-signal (fd ∷ fds) (d, w) e = elim (Bool-cases (fd == d.signal_fd)) [
    | inl now ↦ on_batch-stopping true fds (on_event call true fd (d, w)) (rw now refl)
    | inr later ↦
        on_batch-signal fds (on_event call true fd (d, w))
          (rw (on_event-signal_fd true fd (d, w)) (rw later at e))
  ]

  run-at_stop :
      (waits : List Wait) (s : Dispatcher H × W)
      → s.0.stopping ≡ true
      → (run call waits s).0 ≡ stopped
  unfolding run
  run-at_stop [] (d, w) e = rw e
  run-at_stop (x ∷ waits) (d, w) e = rw e refl

  run-left :
      (waits : List Wait) (s : Dispatcher H × W)
      → s.0.stopping ≡ true
      → (run call waits s).1 ≡ waits
  unfolding run
  run-left [] (d, w) e = refl
  run-left (x ∷ waits) (d, w) e = rw e refl

  -- It returns, and leaves at least the outcomes `after`.
  abbrev pub Returns : List Wait → Ended × List Wait × Dispatcher H × W → Type 0
  Returns after r = (r.0 ≡ stopped) × ((left : List Wait) × (r.1 ≡ left ++ after))

  stopped-Returns :
      (left after : List Wait) (s : Dispatcher H × W)
      → s.0.stopping ≡ true
      → Returns after (run call (left ++ after) s)
  stopped-Returns left after s e =
      (run-at_stop (left ++ after) s e, (left, run-left (left ++ after) s e))

  early-Returns :
      (before after : List Wait) (fds : List ℕ) (reads : Bool) (s : Dispatcher H × W)
      → s.0.stopping ≡ true
      → Returns after (run call (before ++ ready fds reads ∷ after) s)
  early-Returns before after fds reads s e =
      subst (λ ws. Returns after (run call ws s)) (append_assoc before (ready fds reads ∷ []) after)
        (stopped-Returns (before ++ ready fds reads ∷ []) after s e)

  -- When epoll_wait does not fail before, run() ends by the batch that holds the descriptor of the
  -- signals, when a read() of them yields a whole siginfo, or before it, whatever the handlers do but
  -- undo a stop: it returns, and takes no batch behind that one.
  pub run-stopped :
      (before after : List Wait) (fds : List ℕ) (s : Dispatcher H × W)
      → NoneFailed before
      → has_fd s.0.signal_fd fds ≡ true
      → Returns after (run call (before ++ ready fds true ∷ after) s)
  unfolding run
  run-stopped [] after fds (d, w) n e = elim (Bool-cases d.stopping) [
    | inl f ↦ stopped-Returns (ready fds true ∷ []) after (d, w) f
    | inr f ↦
        rw f
          (stopped-Returns [] after (on_batch call true fds (d, w)) (on_batch-signal fds (d, w) e))
  ]
  run-stopped (ready ks reads ∷ before) after fds (d, w) n e = elim (Bool-cases d.stopping) [
    | inl f ↦ early-Returns (ready ks reads ∷ before) after fds true (d, w) f
    | inr f ↦ rw f (
        run-stopped before after fds (on_batch call reads ks (d, w)) n
          (ap (λ k. has_fd k fds) (on_batch-signal_fd reads ks (d, w)) ∙ e))
  ]
  run-stopped (interrupted ∷ before) after fds (d, w) n e = elim (Bool-cases d.stopping) [
    | inl f ↦ early-Returns (interrupted ∷ before) after fds true (d, w) f
    | inr f ↦ rw f (run-stopped before after fds (d, w) n e)
  ]
  run-stopped (failed ∷ before) after fds s n e = absurd n
