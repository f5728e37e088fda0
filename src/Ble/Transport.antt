-- ===== src/Ble/Transport.antt =====
-- src/ble_transport.cpp: the channel of a Bluetooth battery, as a thread and a handler of the
-- dispatcher. What the handler does is in Ble.EventQueue, and what the thread does in Ble.Client.
use bms_bridge.Base.{
  ℕ, ◌≡◌, refl, ap, List, [], ◌∷◌, none, some, Bool, true, false, Bool-cases, inl, inr, ◌==◌,
  ==_refl, if◌then◌else◌,
}
use bms_bridge.Thread.{Worker, not_made, running, ended, joined, Thread, joinable, join}
use bms_bridge.Thread
use bms_bridge.Dispatcher.{
  Dispatcher, handler_of, has_fd, emplace, erase, remove_fd, watch, unwatch,
}

-- `attached` says that the dispatcher is known.
pub record BleTransport : Type 0 where
  pub ble : Thread
  pub attached : Bool

-- stop() of the thread, whose run() has ended by the time that it returns.
unfoldable pub stop_thread : Thread → Thread
unfolding Thread.stop
stop_thread t = let s = Thread.stop t in if s.in_join then join s else s

module _ {H : Type 0} (notify_fd : ℕ) where
  -- The thread is not started where watch() throws.
  unfoldable pub start :
      (pump : H) (spawns : Bool) → BleTransport × Dispatcher H → BleTransport × Dispatcher H
  unfolding watch Thread.start
  start pump spawns (b, d) =
      let (watched, e) = watch notify_fd pump d in
      let c = record b { attached = true } in
      if watched then (record c { ble = Thread.start spawns b.ble }, e) else (c, e)

  unfoldable pub stop : BleTransport × Dispatcher H → BleTransport × Dispatcher H
  unfolding stop_thread unwatch
  stop (b, d) = (
    record b { ble = stop_thread b.ble; attached = false },
    if b.attached then unwatch notify_fd d else d,
  )

stop_thread-Stopped :
    (t : Thread)
    → (joinable (stop_thread t).worker ≡ false) × (stop_thread (stop_thread t) ≡ stop_thread t)
unfolding stop_thread Thread.stop Thread.call_off
stop_thread-Stopped t = go t.worker t.stopping
  where
    go :
        (w : Worker) (b : Bool)
        → let s = record t { worker = w; stopping = b } in
          (joinable (stop_thread s).worker ≡ false) × (stop_thread (stop_thread s) ≡ stop_thread s)
    go not_made true = (refl, refl)
    go not_made false = (refl, refl)
    go running true = (refl, refl)
    go running false = (refl, refl)
    go ended true = (refl, refl)
    go ended false = (refl, refl)
    go joined true = (refl, refl)
    go joined false = (refl, refl)

remove_fd-absent : (fd : ℕ) (ks : List ℕ) → has_fd fd ks ≡ false → remove_fd fd ks ≡ ks
unfolding remove_fd
remove_fd-absent fd [] e = refl
remove_fd-absent fd (k ∷ ks) e = elim (Bool-cases (k == fd)) [
  | inl same ↦ let known : true ≡ false = rw same at e in cc
  | inr other ↦ rw other (ap (◌∷◌ k) (remove_fd-absent fd ks (rw other at e)))
]

module _ {H : Type 0} where
  erase-absent : (fd : ℕ) (hs : List (ℕ × H)) → handler_of fd hs ≡ none → erase fd hs ≡ hs
  unfolding erase
  erase-absent fd [] e = refl
  erase-absent fd ((k, h) ∷ hs) e = elim (Bool-cases (k == fd)) [
    | inl same ↦ let found : some h ≡ none = rw same at e in cc
    | inr other ↦ rw other (ap (◌∷◌ (k, h)) (erase-absent fd hs (rw other at e)))
  ]

  emplace-absent :
      (fd : ℕ) (h : H) (hs : List (ℕ × H))
      → handler_of fd hs ≡ none
      → emplace fd h hs ≡ (fd, h) ∷ hs
  unfolding emplace
  emplace-absent fd h hs e = ap (λ o. elim o [ none ↦ (fd, h) ∷ hs | some old ↦ hs ]) e

  -- Of a descriptor that is not known.
  unwatch-watch :
      (fd : ℕ) (h : H) (d : Dispatcher H)
      → has_fd fd d.polled ≡ false
      → handler_of fd d.handlers ≡ none
      → ((watch fd h d).0 ≡ true) × (unwatch fd (watch fd h d).1 ≡ d)
  unfolding watch unwatch erase remove_fd
  unwatch-watch fd h d new free =
      rw
        (
          new,
          emplace-absent fd h d.handlers free,
          ==_refl fd,
          erase-absent fd d.handlers free,
          remove_fd-absent fd d.polled new,
        )
        (refl, refl)

  -- Behind a start() and a stop(), the dispatcher is as it was before them, if it did not know the
  -- descriptor; no thread is left to join; and a further stop() changes nothing.
  pub stop-start :
      (notify_fd : ℕ) (pump : H) (spawns : Bool) (b : BleTransport) (d : Dispatcher H)
      → has_fd notify_fd d.polled ≡ false
      → handler_of notify_fd d.handlers ≡ none
      → let (c, e) = stop notify_fd (start notify_fd pump spawns (b, d)) in
        (e ≡ d) × (joinable c.ble.worker ≡ false) × (stop notify_fd (c, e) ≡ (c, e))
  unfolding start stop
  stop-start fd pump spawns b d new free =
      let w = unwatch-watch fd pump d new free in
      let s = stop_thread-Stopped (Thread.start spawns b.ble) in
      rw (w.0, w.1, s.1) (refl, s.0, refl)
