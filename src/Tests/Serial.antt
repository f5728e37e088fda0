-- ===== src/Tests/Serial.antt =====
-- A serial port: a write in two parts, and an adapter that is pulled out and comes back.
use bms_bridge.Base.{pos, ◌≤◌, ◌≡◌, ◌≢◌, [], ◌∷◌, none, some, true, false, All}
use bms_bridge.Uart.{
  Tty, wrote, try_again, UartTransport, new_transport, send, start, on_readable, on_reopen_tick,
}
use bms_bridge.Uart.Sending.{Splits, Progress, progress, send-Splits}

abbrev present : Tty
present = record { opens = some 7; gets_attributes = true; sets_attributes = true }

abbrev broken : Tty
broken = record { opens = some 8; gets_attributes = true; sets_attributes = false }

abbrev opened : UartTransport
opened = start present (new_transport 9600 (pos 5000))

abbrev reopened : UartTransport
reopened = on_reopen_tick broken (on_readable ((1 ∷ 2 ∷ []) ∷ []) true opened)

send-Splits_example :
    let r = send (wrote 2 ∷ try_again ∷ wrote 1 ∷ []) (7 ∷ 8 ∷ 9 ∷ []) opened in
    Splits (7 ∷ 8 ∷ 9 ∷ []) r.0 r.1
    × (opened.fd ≡ none → (r.0 ≡ []) × (r.1 ≡ some false))
    × (opened.fd ≢ none
        → All Progress (wrote 2 ∷ try_again ∷ wrote 1 ∷ [])
        → 3 ≤ progress (wrote 2 ∷ try_again ∷ wrote 1 ∷ [])
        → r.1 ≡ some true)
send-Splits_example = send-Splits (wrote 2 ∷ try_again ∷ wrote 1 ∷ []) (7 ∷ 8 ∷ 9 ∷ []) opened
