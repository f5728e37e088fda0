-- ===== src/Battery/Delivery.antt =====
-- From a transport to the shared state: what BleTransport::pump of src/ble_transport.cpp and
-- UartTransport call of the TransportEvents, and what BmsHandler makes of it.
use bms_bridge.Base.{
  ℕ, ℤ, ◌≡◌, ◌≢◌, refl, sym, ap, ◌∙◌, List, [], ◌∷◌, none, some, some_inj, Option-cases, inl, inr,
  Bool, true, false,
}
use bms_bridge.Battery.Handler.{
  BatteryProtocol, BmsHandler, Event, connected, disconnected, received, poll_tick, settings_tick,
  run,
}
use bms_bridge.Battery.Handler.Run.{link, run-link}
use bms_bridge.Ble.EventQueue.{BmsEvent, link_up, link_down, notify_frame}
use bms_bridge.Ble.EventQueue.Session.{told, session}
use bms_bridge.Ble.Client.{stopping, Settings, BleClient}
use bms_bridge.Ble.Client.Lifecycle.{ReachableClient, is_online, reachable-Tells}
use bms_bridge.Uart.{UartTransport}
use bms_bridge.Uart.Reopening.{ReachableUart, is_open, reachable-Live}

-- The call of the sink that an event becomes; `now` is the clock at that call.
abbrev pub sink_call : ℕ → BmsEvent → Event
sink_call now link_up = connected
sink_call now link_down = disconnected
sink_call now (notify_frame payload) = received now payload

-- The dispatcher's calls of a handler: all of the transport's, in their order, and ticks between them.
pub data Dispatched : List BmsEvent → List Event → Type 0 where
  all_delivered : Dispatched [] []
  delivers :
      (now : ℕ) (ev : BmsEvent) {evs : List BmsEvent} {es : List Event}
      → Dispatched evs es
      → Dispatched (ev ∷ evs) (sink_call now ev ∷ es)
  polls :
      {evs : List BmsEvent} {es : List Event} → Dispatched evs es → Dispatched evs (poll_tick ∷ es)
  refreshes :
      {evs : List BmsEvent} {es : List Event}
      → Dispatched evs es
      → Dispatched evs (settings_tick ∷ es)

none_is_some : {A : Type 0} {a : A} → none ≡ some a → ⊥
none_is_some e = cc

session-none : (evs : List BmsEvent) → session none evs ≡ none
unfolding session
session-none [] = refl
session-none (ev ∷ evs) = session-none evs

next_link :
    (now : ℕ) (ev : BmsEvent) (es : List Event) (up u : Bool)
    → told ev up ≡ some u
    → link up (sink_call now ev ∷ es) ≡ link u es
next_link now link_up es true u e = cc
next_link now link_up es false u e = ap (λ b. link b es) (some_inj e)
next_link now link_down es true u e = ap (λ b. link b es) (some_inj e)
next_link now link_down es false u e = cc
next_link now (notify_frame payload) es up u e = ap (λ b. link b es) (some_inj e)

link-session :
    (up b : Bool) {evs : List BmsEvent} {es : List Event}
    → Dispatched evs es
    → session (some up) evs ≡ some b
    → link up es ≡ b
unfolding session
link-session up b all_delivered e = some_inj e
link-session up b (delivers now ev {evs} {es} d) e = elim (Option-cases (told ev up)) [
  | inl n ↦ absurd (none_is_some (sym (ap (λ t. session t evs) n ∙ session-none evs) ∙ e))
  | inr (u, n) ↦
      next_link now ev es up u n ∙ link-session u b d (sym (ap (λ t. session t evs) n) ∙ e)
]
link-session up b (polls d) e = link-session up b d e
link-session up b (refreshes d) e = link-session up b d e

module _ {P : Type 0} (B : BatteryProtocol P) where
  -- Behind all that a reachable client that is not stopped has pushed, and any ticks between: the
  -- shared state of a handler that started unconnected says connected exactly when the client is
  -- online.
  pub run-is_online :
      {cfg : Settings} (c : BleClient) (es : List Event) (h : BmsHandler P)
      → ReachableClient cfg c
      → c.state ≢ stopping
      → Dispatched c.pushed es
      → h.state.connected ≡ false
      → (run B es h).state.connected ≡ is_online c.state
  run-is_online c es h r n d e =
      run-link B es h
      ∙ ap (λ up. link up es) e
      ∙ link-session false (is_online c.state) d ((reachable-Tells c r).running n)

  -- The same of a serial port: connected exactly when the port is open.
  pub run-is_open :
      {baud : ℕ} {reconnect_ms : ℤ} (u : UartTransport) (es : List Event) (h : BmsHandler P)
      → ReachableUart baud reconnect_ms u
      → Dispatched u.told es
      → h.state.connected ≡ false
      → (run B es h).state.connected ≡ is_open u.fd
  run-is_open u es h r d e =
      run-link B es h
      ∙ ap (λ up. link up es) e
      ∙ link-session false (is_open u.fd) d (reachable-Live u r).tells
