-- ===== src/Tests/Wire.antt =====
-- The Pylontech wire format at concrete frames.
use bms_bridge.Base.{ℕ, ◌+◌, ◌≡◌, refl, [], ◌∷◌, ◌++◌, Bytes, true, false, inl, length, pos}
use bms_bridge.Tests.{analog_request, analog_request-IsFrame, wire_bytes}
use bms_bridge.Pylontech.Hex.{hex_val, chksum_over}
use bms_bridge.Pylontech.Frame.{
  PylontechFrame, frame, scan_until, try_parse_pylontech, build_pylontech, decode_byte, decode_info,
  decode_body, parse_at, soi_byte,
}
use bms_bridge.Pylontech.Frame.RoundTrip.{try_parse-build}
use bms_bridge.Pylontech.Frame.Sound.{Holds, try_parse-Holds}
use bms_bridge.Pylontech.Frame.RoundTrip.{IsFrame}
use bms_bridge.Pylontech.Stream.{
  receive, Settled, Arrivals, on_line, handle_all, receive-Settled, receive-on_line,
}
use bms_bridge.Pylontech.Payload.Analog.{AnalogResponse}
use bms_bridge.Pylontech.Payload
use bms_bridge.Pylontech.Payload.ChargeManagement.{ChargeManagementResponse}
use bms_bridge.Pylontech.Responder.Answers.{Answers}

wire_run : try_parse_pylontech (0x7E ∷ wire_bytes) ≡ frame 20 (analog_request 2)
unfolding try_parse_pylontech scan_until parse_at decode_body decode_byte decode_info hex_val
    chksum_over
wire_run = refl

abbrev request_with_tail : Bytes
request_with_tail = build_pylontech (analog_request 2) ++ 0x7E ∷ []

try_parse-build_example :
    try_parse_pylontech request_with_tail
    ≡ frame (length (build_pylontech (analog_request 2))) (analog_request 2)
try_parse-build_example = try_parse-build (analog_request 2) (0x7E ∷ []) analog_request-IsFrame

try_parse-Holds_example :
    Holds (0x7E ∷ wire_bytes) 20 (analog_request 2) × IsFrame (analog_request 2)
try_parse-Holds_example = try_parse-Holds 0x7E wire_bytes 20 (analog_request 2) wire_run

abbrev count_frames : ℕ → PylontechFrame → ℕ
count_frames n f = n + 1

receive-Settled_example : Settled (receive count_frames 0 wire_bytes).1
receive-Settled_example = receive-Settled count_frames 0 wire_bytes

-- Two polls, noise in front of the first.
abbrev two_polls : Arrivals
two_polls = (b'n' ∷ [], analog_request 2) ∷ ([], analog_request 2) ∷ []

noise_run : scan_until soi_byte (b'n' ∷ []) ≡ 1
unfolding scan_until
noise_run = refl

silence_run : scan_until soi_byte [] ≡ 0
unfolding scan_until
silence_run = refl

receive-on_line_example :
    receive count_frames 0 (on_line two_polls []) ≡ (handle_all count_frames 0 two_polls, [])
receive-on_line_example =
    receive-on_line count_frames 0 two_polls []
      (noise_run, analog_request-IsFrame, (silence_run, analog_request-IsFrame, tt)) (inl refl)

abbrev permissions : ChargeManagementResponse
permissions = record {
  command = 2;
  charge_voltage_limit_mv = 10950;
  discharge_voltage_limit_mv = 8700;
  charge_current_limit_01a = pos 1000;
  discharge_current_limit_01a = pos 1000;
  charge_enabled = true;
  discharge_enabled = false;
  request_charge_immediately = true;
  request_charge_immediately_low = false;
  request_full_charge = false;
}
