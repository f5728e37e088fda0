-- ===== src/Tests/Bridge.antt =====
-- The inverter's slave and the Pylontech master at concrete devices.
use bms_bridge.Base.{pos, ◌*◌, ◌/◌, ◌+◌, ◌≡◌, refl, [], ◌∷◌, some, negsuc, arith}
use bms_bridge.Tests.{
  analog_request, analog_request-IsFrame, cells, pack, limits, cells-AreCells, live_state,
  main_battery, reserve_battery, batteries,
}
use bms_bridge.Battery.Protocol.{nothing_parsed}
use bms_bridge.Battery.State.{is_fresh, snapshot}
use bms_bridge.Pylontech.Frame.{scan_until, soi_byte}
use bms_bridge.Pylontech.Payload.Analog.{AnalogResponse, IsAnalog}
use bms_bridge.Pylontech.Stream.{Arrivals}
use bms_bridge.Pylontech.Responder.{module_count_for_capacity, build_analog_response}
use bms_bridge.Pylontech.Master.{PylontechMasterProtocol, feed}
use bms_bridge.Pylontech.Master.Routing.{feed-build_analog_response}
use bms_bridge.Inverter.{
  Inverter, build_address_map, slot_of, find_named, capacity_mah, live, answer, answer_from,
  slot_response, response_to, module_pack, module_limits, mirror_of, add_slots,
}
use bms_bridge.Inverter.Addresses.{count_of, offset}
use bms_bridge.Inverter.Answering.{answer-monitored, answer-reserve}
use bms_bridge.Inverter.Requests.{Answered, answer-Answered}

main_count : count_of main_battery ≡ 3
unfolding module_count_for_capacity capacity_mah
main_count = refl

reserve_count : count_of reserve_battery ≡ 2
unfolding module_count_for_capacity capacity_mah
reserve_count = refl

live_run : live 4000 live_state ≡ some (cells, pack, limits)
unfolding live snapshot is_fresh
live_run = refl

-- Address 3 is the second module of the monitored battery, and 6 that of the reserve.
answer-monitored_example :
    answer 4000 batteries (build_address_map batteries) (analog_request 3)
    ≡ response_to
        (analog_request 3)
        cells
        (module_pack (count_of main_battery) pack)
        (module_limits (count_of main_battery) limits)
answer-monitored_example =
    answer-monitored 4000 batteries 0 1 main_battery (analog_request 3) cells pack limits refl
      (omega (arith, main_count)) refl refl live_run

address_of_reserve : 6 ≡ 2 + (offset batteries 1 + 1)
address_of_reserve = omega (arith, main_count)

answer-reserve_example :
    answer 4000 batteries (build_address_map batteries) (analog_request 6)
    ≡ response_to
        (analog_request 6)
        cells
        (record pack {
          current_ma = pos 0;
          remaining_capacity_mah = 100 * 10 * 80 / count_of reserve_battery;
          total_capacity_mah = 100 * 1000 / count_of reserve_battery;
        })
        (record limits {
          max_charge_current_ma = 100 * 500 / count_of reserve_battery;
          max_discharge_current_ma = 100 * 500 / count_of reserve_battery;
        })
answer-reserve_example =
    answer-reserve 4000 batteries 1 1 0 100 reserve_battery main_battery (analog_request 6) cells
      pack limits refl (omega (arith, reserve_count)) address_of_reserve refl refl refl tt live_run
      refl (omega arith) (omega arith)

answered_run :
    answer 4000 batteries (build_address_map batteries) (analog_request 3)
    ≡ some (build_analog_response (analog_request 3) cells (module_pack 3 pack))
unfolding answer answer_from slot_response response_to live snapshot is_fresh build_address_map
    add_slots slot_of mirror_of module_count_for_capacity capacity_mah find_named
answered_run = refl

answer-Answered_example :
    Answered 4000 batteries
      (build_address_map batteries)
      (analog_request 3)
      (build_analog_response (analog_request 3) cells (module_pack 3 pack))
answer-Answered_example =
    answer-Answered 4000 batteries (build_address_map batteries) (analog_request 3)
      (build_analog_response (analog_request 3) cells (module_pack 3 pack)) answered_run

abbrev polls : Arrivals
polls = (b'n' ∷ [], analog_request 2) ∷ ([], analog_request 2) ∷ []

noise_only : scan_until soi_byte (b'n' ∷ []) ≡ 1
unfolding scan_until
noise_only = refl

no_noise : scan_until soi_byte [] ≡ 0
unfolding scan_until
no_noise = refl

abbrev bridge : Inverter
bridge = record { batteries = batteries; slots = build_address_map batteries; rx_buf = [] }

-- A master of the module at wire address 2.
abbrev master : PylontechMasterProtocol
master = record { wire_adr = 2; rx = []; last_cell_count = 0 }

feed-build_analog_response_example :
    feed master (build_analog_response (analog_request 2) cells pack)
    ≡ (record master { rx = [] }, nothing_parsed)
feed-build_analog_response_example =
    feed-build_analog_response master (analog_request 2) cells pack refl analog_request-IsFrame
      cells-AreCells

abbrev analog : AnalogResponse
analog = record {
  infoflag = 0;
  command = 2;
  cell_voltages_mv = 3301 ∷ 3299 ∷ [];
  temperatures_k10 = 2981 ∷ [];
  current_01a = negsuc 119;
  module_voltage_mv = 6600;
  remain_capacity_mah = 40000;
  user_defined_count = 2;
  total_capacity_mah = 50000;
  cycle_count = 7;
}

analog-IsAnalog : IsAnalog analog
analog-IsAnalog = record {
  infoflag = omega arith;
  command = omega arith;
  cells = (omega arith, (omega arith, tt));
  few_cells = omega arith;
  temperatures = (omega arith, tt);
  few_temperatures = omega arith;
  current = omega arith;
  module_voltage = omega arith;
  remain_capacity = omega arith;
  user_defined = omega arith;
  total_capacity = omega arith;
  cycles = omega arith;
}
