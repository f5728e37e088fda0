-- ===== src/Tests/Path.antt =====
-- A session of a JK battery, and the inverter's poll of its first module.
use bms_bridge.Base.{
  ℕ, zero, suc, ◌<◌, ◌≡◌, refl, List, [], ◌∷◌, ◌++◌, Bytes, replicate, take, true, pos, arith,
}
use bms_bridge.Jk.Wire.{byte_at, response_magic, jk_crc8, crc_sum}
use bms_bridge.Jk.Assembler.Delivery.{IsResponse}
use bms_bridge.Jk.Parse.{settings}
use bms_bridge.Battery.Handler.{Event, new_handler, run}
use bms_bridge.Battery.Path.Steps.{jk_protocol, JkHandler, telemetry_of, empty}
use bms_bridge.Battery.Path.{session, IsSession, answer-session}
use bms_bridge.Pylontech.Responder.{module_count_for_capacity}
use bms_bridge.Inverter.{
  Battery, capacity_mah, build_address_map, response_to, module_pack, module_limits, answer,
}
use bms_bridge.Inverter.Addresses.{count_of}
use bms_bridge.Tests.{analog_request}
use bms_bridge.Tests.Bms.{response, response-IsResponse}

abbrev settings_response : Bytes
settings_response = 0x55 ∷ 0xAA ∷ 0xEB ∷ 0x90 ∷ 1 ∷ (replicate 294 0 ++ 123 ∷ [])

settings_response-magic : (i : ℕ) → i < 4 → byte_at settings_response i ≡ byte_at response_magic i
settings_response-magic zero h = refl
settings_response-magic (suc zero) h = refl
settings_response-magic (suc (suc zero)) h = refl
settings_response-magic (suc (suc (suc zero))) h = refl
settings_response-magic (suc (suc (suc (suc i)))) h = absurd (omega arith)

settings_response-checksum : jk_crc8 (take 299 settings_response) ≡ byte_at settings_response 299
unfolding jk_crc8 crc_sum
settings_response-checksum = refl

settings_response-IsResponse : IsResponse settings_response
settings_response-IsResponse = record {
  size = refl;
  magic = settings_response-magic;
  checksum = settings_response-checksum;
}

abbrev handler : JkHandler
handler = new_handler empty 5000 500

events-IsSession : IsSession 8000 9000 (0x41 ∷ []) settings_response [] response handler
events-IsSession = record {
  settings_noise = (omega arith, tt);
  settings_frame = settings_response-IsResponse;
  settings_type = refl;
  cells_noise = tt;
  cells_frame = response-IsResponse;
  cells_type = refl;
  due = omega arith;
}

abbrev events : List Event
events = session 8000 9000 (0x41 ∷ []) settings_response [] response handler

abbrev battery : Battery
battery = record {
  name = b'm' ∷ [];
  monitored = true;
  mirror = [];
  capacity = pos 140;
  state = (run jk_protocol events handler).state;
}

battery_count : count_of battery ≡ 3
unfolding module_count_for_capacity capacity_mah
battery_count = refl

answer-session_example :
    answer 12000 (battery ∷ []) (build_address_map (battery ∷ [])) (analog_request 2)
    ≡ response_to
        (analog_request 2)
        (telemetry_of response).0
        (module_pack (count_of battery) (telemetry_of response).1)
        (module_limits (count_of battery) (settings settings_response))
answer-session_example =
    answer-session 8000 9000 (0x41 ∷ []) settings_response [] response handler 12000 (battery ∷ [])
      0 0 battery (analog_request 2) events-IsSession (omega arith) refl refl refl
      (omega (arith, battery_count)) refl
