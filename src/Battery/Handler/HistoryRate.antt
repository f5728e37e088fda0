-- ===== src/Battery/Handler/HistoryRate.antt =====
-- How often the handler appends to the history.
use bms_bridge.Base.{
  ℕ, ◌-◌, ◌≤◌, ◌≡◌, inl, inr, refl, sym, ◌∙◌, ap, subst, List, [], ◌∷◌, Option, none, some, true,
  leb, Bool-cases, Bytes, arith,
}
use bms_bridge.Jk.Types.{JkCellInfo, JkPackInfo, JkSettings}
use bms_bridge.Battery.Protocol.{Telemetry}
use bms_bridge.Battery.Handler.{
  BatteryProtocol, BmsHandler, Event, connected, disconnected, received, poll_tick, settings_tick,
  new_handler, send, write_history, update_state, on_telemetry, keep_settings, keep_telemetry,
  on_poll_tick, on_settings_tick, on_connected, on_disconnected, on_bytes, handle, run,
}

abbrev pub Entries : Type 0
Entries = List (ℕ × JkCellInfo × JkPackInfo)

-- Each entry stands at least `interval` behind the one before it, the first behind time 0.
abbrev pub Spaced : ℕ → Entries → Type 0
Spaced interval [] = Unit {0}
Spaced interval ((t, c, p) ∷ []) = interval ≤ t
Spaced interval ((t, c, p) ∷ ((t', c', p') ∷ es)) =
    (interval ≤ t - t') × Spaced interval ((t', c', p') ∷ es)

-- The time of the newest entry.
abbrev newest : Entries → ℕ
newest [] = 0
newest ((t, c, p) ∷ es) = t

Spaced-cons :
    (interval now : ℕ) (c : JkCellInfo) (p : JkPackInfo) (es : Entries)
    → interval ≤ now - newest es
    → Spaced interval es
    → Spaced interval ((now, c, p) ∷ es)
Spaced-cons interval now c p [] h s = omega arith
Spaced-cons interval now c p ((t, c', p') ∷ es) h s = (h, s)

record RateLimited {P : Type 0} (interval : ℕ) (h : BmsHandler P) : Type 0 where
  spaced : Spaced interval h.history
  last : newest h.history ≡ h.last_history_write
  configured : h.history_interval ≡ interval

leb-true : (a b : ℕ) → leb a b ≡ true → a ≤ b
leb-true a b e = ground arith

module _ {P : Type 0} (interval : ℕ) where
  -- Whatever keeps these three fields keeps the limit.
  kept :
      (g h : BmsHandler P)
      → g.history ≡ h.history
      → g.last_history_write ≡ h.last_history_write
      → g.history_interval ≡ h.history_interval
      → RateLimited interval h
      → RateLimited interval g
  kept g h e l i v = record {
    spaced = subst (Spaced interval) (sym e) v.spaced;
    last = ap newest e ∙ v.last ∙ sym l;
    configured = i ∙ v.configured;
  }

  send-RateLimited :
      (b : Bytes) (h : BmsHandler P) → RateLimited interval h → RateLimited interval (send b h)
  unfolding send
  send-RateLimited [] h v = v
  send-RateLimited (b ∷ bs) h v = kept _ h refl refl refl v

  settings-RateLimited :
      (s : Option JkSettings) (h : BmsHandler P)
      → RateLimited interval h
      → RateLimited interval (keep_settings s h)
  unfolding keep_settings
  settings-RateLimited none h v = v
  settings-RateLimited (some s) h v = kept _ h refl refl refl v

  update-RateLimited :
      (now : ℕ) (c : JkCellInfo) (p : JkPackInfo) (h : BmsHandler P)
      → RateLimited interval h
      → RateLimited interval (update_state now c p h)
  unfolding update_state
  update-RateLimited now c p h v =
      elim (Bool-cases (leb h.state_update_interval (now - h.last_state_update))) [
        | inl e ↦ rw e (kept _ h refl refl refl v)
        | inr e ↦ rw e v
      ]

  write-RateLimited :
      (now : ℕ) (c : JkCellInfo) (p : JkPackInfo) (h : BmsHandler P)
      → RateLimited interval h
      → RateLimited interval (write_history now c p h)
  unfolding write_history
  write-RateLimited now c p h v =
      elim (Bool-cases (leb h.history_interval (now - h.last_history_write))) [
        | inl e ↦ rw e (record {
          spaced =
              Spaced-cons interval now c p h.history
                (omega (arith, leb-true _ _ e, v.last, v.configured)) v.spaced;
          last = refl;
          configured = v.configured;
        })
        | inr e ↦ rw e v
      ]

  telemetry-RateLimited :
      (now : ℕ) (t : Option Telemetry) (h : BmsHandler P)
      → RateLimited interval h
      → RateLimited interval (keep_telemetry now t h)
  unfolding keep_telemetry on_telemetry
  telemetry-RateLimited now none h v = v
  telemetry-RateLimited now (some t) h v =
      update-RateLimited now t.cells t.pack _ (write-RateLimited now t.cells t.pack h v)

  handle-RateLimited :
      (B : BatteryProtocol P) (e : Event) (h : BmsHandler P)
      → RateLimited interval h
      → RateLimited interval (handle B e h)
  unfolding handle on_connected on_disconnected on_bytes on_poll_tick on_settings_tick
  handle-RateLimited B connected h v =
      send-RateLimited _ _ (send-RateLimited _ _ (kept _ h refl refl refl v))
  handle-RateLimited B disconnected h v = kept _ h refl refl refl v
  handle-RateLimited B (received now chunk) h v =
      settings-RateLimited _ _ (telemetry-RateLimited now _ _ (kept _ h refl refl refl v))
  handle-RateLimited B poll_tick h v = send-RateLimited _ h v
  handle-RateLimited B settings_tick h v = send-RateLimited _ h v

  run-RateLimited :
      (B : BatteryProtocol P) (es : List Event) (h : BmsHandler P)
      → RateLimited interval h
      → RateLimited interval (run B es h)
  run-RateLimited B [] h v = v
  run-RateLimited B (e ∷ es) h v = run-RateLimited B es (handle B e h) (handle-RateLimited B e h v)

  -- Over any sequence of events, with any protocol, a new handler's history entries are at least its
  -- history interval apart, and the first is at least that interval behind time 0.
  pub run-Spaced :
      (B : BatteryProtocol P) (es : List Event) (protocol : P) (update_interval : ℕ)
      → Spaced interval (run B es (new_handler protocol interval update_interval)).history
  run-Spaced B es protocol update_interval =
      (run-RateLimited B es (new_handler protocol interval update_interval)
        (record { spaced = tt; last = refl; configured = refl })).spaced
