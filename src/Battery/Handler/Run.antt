-- ===== src/Battery/Handler/Run.antt =====
-- What holds after any sequence of events.
use bms_bridge.Base.{
  ℕ, ◌-◌, ◌≡◌, inl, inr, refl, ◌∙◌, ap, List, [], ◌∷◌, Option, none, some, Bool, true, false, leb,
  Bool-cases, Bytes,
}
use bms_bridge.Jk.Types.{JkCellInfo, JkPackInfo, JkSettings}
use bms_bridge.Battery.Protocol.{Telemetry}
use bms_bridge.Battery.State.{SharedState, set_connected, apply_telemetry, apply_settings, is_fresh}
use bms_bridge.Battery.Handler.{
  BatteryProtocol, BmsHandler, Event, connected, disconnected, received, poll_tick, settings_tick,
  send, write_history, update_state, on_telemetry, keep_settings, keep_telemetry, on_poll_tick,
  on_settings_tick, on_connected, on_disconnected, on_bytes, handle, run,
}

-- Whether the link is up behind a sequence of events.
abbrev pub link : Bool → List Event → Bool
link up [] = up
link up (connected ∷ es) = link true es
link up (disconnected ∷ es) = link false es
link up (received now chunk ∷ es) = link up es
link up (poll_tick ∷ es) = link up es
link up (settings_tick ∷ es) = link up es

module _ {P : Type 0} where
  send-state : (bytes : Bytes) (h : BmsHandler P) → (send bytes h).state ≡ h.state
  unfolding send
  send-state [] h = refl
  send-state (b ∷ bs) h = refl

  keep_settings-connected :
      (s : Option JkSettings) (h : BmsHandler P)
      → (keep_settings s h).state.connected ≡ h.state.connected
  unfolding keep_settings apply_settings
  keep_settings-connected none h = refl
  keep_settings-connected (some s) h = refl

  update_state-connected :
      (now : ℕ) (c : JkCellInfo) (p : JkPackInfo) (h : BmsHandler P)
      → (update_state now c p h).state.connected ≡ h.state.connected
  unfolding update_state apply_telemetry
  update_state-connected now c p h =
      elim (Bool-cases (leb h.state_update_interval (now - h.last_state_update))) [
        | inl e ↦ rw e refl
        | inr e ↦ rw e refl
      ]

  write_history-state :
      (now : ℕ) (c : JkCellInfo) (p : JkPackInfo) (h : BmsHandler P)
      → (write_history now c p h).state ≡ h.state
  unfolding write_history
  write_history-state now c p h =
      elim (Bool-cases (leb h.history_interval (now - h.last_history_write))) [
        | inl e ↦ rw e refl
        | inr e ↦ rw e refl
      ]

  keep_telemetry-connected :
      (now : ℕ) (t : Option Telemetry) (h : BmsHandler P)
      → (keep_telemetry now t h).state.connected ≡ h.state.connected
  unfolding keep_telemetry on_telemetry
  keep_telemetry-connected now none h = refl
  keep_telemetry-connected now (some t) h =
      update_state-connected now t.cells t.pack (write_history now t.cells t.pack h)
      ∙ ap (λ (s : SharedState). s.connected) (write_history-state now t.cells t.pack h)

module _ {P : Type 0} (B : BatteryProtocol P) where
  handle-link :
      (e : Event) (h : BmsHandler P)
      → (handle B e h).state.connected ≡ link h.state.connected (e ∷ [])
  unfolding handle on_connected on_disconnected on_bytes on_poll_tick on_settings_tick set_connected
  handle-link connected h = ap (λ (s : SharedState). s.connected) (send-state _ _ ∙ send-state _ _)
  handle-link disconnected h = refl
  handle-link (received now chunk) h =
      keep_settings-connected _ _ ∙ keep_telemetry-connected now _ _
  handle-link poll_tick h = ap (λ (s : SharedState). s.connected) (send-state _ _)
  handle-link settings_tick h = ap (λ (s : SharedState). s.connected) (send-state _ _)

  -- The shared state is connected if and only if the last link event says so.
  pub run-link :
      (es : List Event) (h : BmsHandler P)
      → (run B es h).state.connected ≡ link h.state.connected es
  run-link [] h = refl
  run-link (e ∷ es) h =
      run-link es (handle B e h)
      ∙ ap (λ up. link up es) (handle-link e h)
      ∙ link-cons e es h.state.connected
    where
      link-cons :
          (e : Event) (es : List Event) (up : Bool) → link (link up (e ∷ [])) es ≡ link up (e ∷ es)
      link-cons connected es up = refl
      link-cons disconnected es up = refl
      link-cons (received now chunk) es up = refl
      link-cons poll_tick es up = refl
      link-cons settings_tick es up = refl

  -- From the moment the link goes down until it comes up again, whatever else arrives, the telemetry
  -- is not fresh, however recent it is.
  pub run-not_fresh :
      (es : List Event) (h : BmsHandler P) (now max_age : ℕ)
      → link h.state.connected es ≡ false
      → is_fresh now max_age (run B es h).state ≡ false
  unfolding is_fresh
  run-not_fresh es h now max_age e =
      let down : (run B es h).state.connected ≡ false = run-link es h ∙ e in rw down refl
