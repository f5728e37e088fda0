-- ===== src/Battery/Path/Steps.antt =====
-- The handler of a JK battery, frame by frame.
use bms_bridge.Base.{
  ℕ, ◌-◌, ◌≤◌, ◌≡◌, ◌≢◌, refl, ap, ◌∙◌, [], ◌∷◌, ◌++◌, All, some, none, true, Bool-cases, inl, inr,
  leb, not, Bytes, arith,
}
use bms_bridge.Jk.Types.{JkCellInfo, JkPackInfo}
use bms_bridge.Jk.Wire.{byte_at, le32}
use bms_bridge.Jk.Parse.{cell_info, settings, looks_like_bitmask}
use bms_bridge.Jk.Assembler.{JkFrameAssembler}
use bms_bridge.Jk.Assembler
use bms_bridge.Jk.Assembler.Delivery.{IsResponse}
use bms_bridge.Jk.Driver.{feed, poll_request, settings_request}
use bms_bridge.Jk.Driver
use bms_bridge.Jk.Driver.Feeding.{feed-Told}
use bms_bridge.Battery.Protocol.{Parsed}
use bms_bridge.Battery.State.{SharedState, set_connected, apply_settings, apply_telemetry}
use bms_bridge.Battery.Handler.{
  BatteryProtocol, BmsHandler, on_connected, on_bytes, send, keep_settings, keep_telemetry,
  on_telemetry, write_history, update_state,
}

abbrev pub jk_protocol : BatteryProtocol JkFrameAssembler
jk_protocol = record {
  reset = Driver.reset;
  poll_request = λ a. poll_request;
  settings_request = λ a. settings_request;
  feed = feed;
}

abbrev pub JkHandler : Type 0
JkHandler = BmsHandler JkFrameAssembler

abbrev pub empty : JkFrameAssembler
empty = record { buf = []; ready = [] }

-- The cells and the pack of a cell information frame, in the layout that its bitmask indicates.
abbrev pub telemetry_of : Bytes → JkCellInfo × JkPackInfo
telemetry_of f = cell_info (not (looks_like_bitmask (le32 f 54))) f

-- What the next frames need of a handler: nothing buffered, and the times of the shared state.
pub record Waits (state : SharedState) (interval last : ℕ) (h : JkHandler) : Type 0 where
  pub idle : h.protocol ≡ empty
  pub state_eq : h.state ≡ state
  pub interval_eq : h.state_update_interval ≡ interval
  pub last_eq : h.last_state_update ≡ last

send-Waits :
    (bytes : Bytes) {s : SharedState} {i l : ℕ} (h : JkHandler)
    → Waits s i l h
    → Waits s i l (send bytes h)
unfolding send
send-Waits [] h w = w
send-Waits (b ∷ bs) h w = record {
  idle = w.idle;
  state_eq = w.state_eq;
  interval_eq = w.interval_eq;
  last_eq = w.last_eq;
}

reset-empty : (a : JkFrameAssembler) → Driver.reset a ≡ empty
unfolding Driver.reset Assembler.reset
reset-empty a = refl

pub connected-Waits :
    (h : JkHandler)
    → Waits
        (set_connected true h.state)
        h.state_update_interval
        h.last_state_update
        (on_connected jk_protocol h)
unfolding on_connected
connected-Waits h =
    let d : JkHandler = record h {
      state = set_connected true h.state;
      protocol = Driver.reset h.protocol;
    } in
    send-Waits poll_request (send settings_request d) (
      send-Waits settings_request d (record {
        idle = reset-empty h.protocol;
        state_eq = refl;
        interval_eq = refl;
        last_eq = refl;
      }))

-- A frame that is fed to an idle driver, and what it tells.
fed :
    (noise f : Bytes) (out : Parsed) (a : JkFrameAssembler)
    → All (λ b. b ≢ 0x55) noise
    → IsResponse f
    → (feed empty (noise ++ f)).1 ≡ out
    → a ≡ empty
    → feed a (noise ++ f) ≡ (empty, out)
fed noise f out a n v told idle =
    let idle_after = (feed-Told noise f n v).0 in
    ap (λ b. feed b (noise ++ f)) idle ∙ (λ i. (idle_after i, told i))

pub settings-Waits :
    (s : SharedState) (i l t : ℕ) (noise f : Bytes) (h : JkHandler)
    → All (λ b. b ≢ 0x55) noise
    → IsResponse f
    → byte_at f 4 ≡ 1
    → Waits s i l h
    → Waits (apply_settings (settings f) s) i l (on_bytes jk_protocol t (noise ++ f) h)
unfolding on_bytes keep_settings keep_telemetry
settings-Waits s i l t noise f h n v e w =
    let told = (feed-Told noise f n v).1.1 e in
    rw
      (fed noise f (record { telemetry = none; settings = some (settings f) }) h.protocol n v told
        w.idle)
      (record {
        idle = refl;
        state_eq = ap (apply_settings (settings f)) w.state_eq;
        interval_eq = w.interval_eq;
        last_eq = w.last_eq;
      })

write_history-same :
    (now : ℕ) (c : JkCellInfo) (p : JkPackInfo) (h : JkHandler)
    → ((write_history now c p h).state ≡ h.state)
      × ((write_history now c p h).state_update_interval ≡ h.state_update_interval)
      × ((write_history now c p h).last_state_update ≡ h.last_state_update)
unfolding write_history
write_history-same now c p h =
    elim (Bool-cases (leb h.history_interval (now - h.last_history_write))) [
      | inl e ↦ rw e (refl, refl, refl)
      | inr e ↦ rw e (refl, refl, refl)
    ]

update_state-due :
    (now : ℕ) (c : JkCellInfo) (p : JkPackInfo) (h : JkHandler)
    → h.state_update_interval ≤ now - h.last_state_update
    → (update_state now c p h).state ≡ apply_telemetry now c p h.state
unfolding update_state
update_state-due now c p h due =
    let test : leb h.state_update_interval (now - h.last_state_update) ≡ true = ground arith in
    rw test refl

on_telemetry-due :
    (now : ℕ) (c : JkCellInfo) (p : JkPackInfo) (h : JkHandler)
    → h.state_update_interval ≤ now - h.last_state_update
    → (on_telemetry now c p h).state ≡ apply_telemetry now c p h.state
unfolding on_telemetry
on_telemetry-due now c p h due =
    let (same, interval, last) = write_history-same now c p h in
    update_state-due now c p (write_history now c p h) (omega (arith, interval, last, due))
    ∙ ap (apply_telemetry now c p) same

pub telemetry-state :
    (s : SharedState) (i l now : ℕ) (noise f : Bytes) (h : JkHandler)
    → All (λ b. b ≢ 0x55) noise
    → IsResponse f
    → byte_at f 4 ≡ 2
    → i ≤ now - l
    → Waits s i l h
    → (on_bytes jk_protocol now (noise ++ f) h).state
      ≡ apply_telemetry now (telemetry_of f).0 (telemetry_of f).1 s
unfolding on_bytes keep_settings keep_telemetry
telemetry-state s i l now noise f h n v e due w =
    let told = (feed-Told noise f n v).1.0 e in
    let d : JkHandler = record h { protocol = empty } in
    rw (fed noise f _ h.protocol n v told w.idle) (
      on_telemetry-due now (telemetry_of f).0 (telemetry_of f).1 d
        (omega (arith, w.interval_eq, w.last_eq, due))
      ∙ ap (apply_telemetry now (telemetry_of f).0 (telemetry_of f).1) w.state_eq)
