-- ===== src/Http/Json/Samples.antt =====
-- The trees of /history and /daily: sample_to_cjson, history_json and handle_daily of
-- src/http_server.cpp.
use bms_bridge.Base.{ℕ, List, [], ◌∷◌, map, Bytes, ℤ, pos}
use bms_bridge.History.Rows.{TelemetrySample}
use bms_bridge.History.Months.{DailyEnergy}
use bms_bridge.History.Aggregate.{Doubles}
use bms_bridge.Http.Daily.{DailyReply}
use bms_bridge.Http.Json.{Json, number, boolean, string, array, object, items, fields}

module _ {F : Type 0} (N : Doubles F) where
  abbrev pub signed_number : ℤ → Json F
  signed_number z = number (N.of_int z)

  abbrev pub count : ℕ → Json F
  count n = number (N.of_int (pos n))

  unfoldable pub sample_to_cjson : TelemetrySample → Json F
  sample_to_cjson s = object (
      fields (
        ("ts", count s.ts)
        ∷ ("voltage_mv", signed_number s.pack.voltage_mv)
        ∷ ("current_ma", signed_number s.pack.current_ma)
        ∷ ("soc_pct", count s.pack.state_of_charge_pct)
        ∷ ("remaining_mah", count s.pack.remaining_capacity_mah)
        ∷ ("total_mah", count s.pack.total_capacity_mah)
        ∷ ("cycle_count", count s.pack.cycle_count)
        ∷ ("temp1_dc", signed_number s.pack.battery_temp1_dc)
        ∷ ("temp2_dc", signed_number s.pack.battery_temp2_dc)
        ∷ ("mos_temp_dc", signed_number s.pack.power_tube_temp_dc)
        ∷ ("charging", boolean s.pack.charging_enabled)
        ∷ ("discharging", boolean s.pack.discharging_enabled)
        ∷ ("balancer", boolean s.pack.balancer_enabled)
        ∷ ("balance_current_ma", signed_number s.pack.balance_current_ma)
        ∷ ("errors", count s.pack.errors_bitmask)
        ∷ ("avg_cell_mv", count s.cells.average_voltage_mv)
        ∷ ("diff_cell_mv", count s.cells.voltage_diff_mv)
        ∷ ("cells_mv", array (items (map count s.cells.voltages_mv)))
        ∷ ("resistance_uohm", array (items (map count s.cells.resistance_uohm)))
        ∷ []))

  unfoldable pub history_json : Bytes → List TelemetrySample → Json F
  unfolding sample_to_cjson
  history_json req_id shown = object (
      fields (("req_id", string req_id) ∷ ("data", array (items (map sample_to_cjson shown))) ∷ []))

  unfoldable pub day_to_cjson : DailyEnergy F → Json F
  day_to_cjson e = object (
      fields (
        ("date", string e.date)
        ∷ ("charged_wh", number e.charged_wh)
        ∷ ("discharged_wh", number e.discharged_wh)
        ∷ []))

  unfoldable pub daily_json : DailyReply F → Json F
  unfolding day_to_cjson
  daily_json r = object (
      fields (
        ("battery_id", count r.battery_id)
        ∷ ("year", count r.year)
        ∷ ("month", count r.month)
        ∷ ("data", array (items (map day_to_cjson r.days)))
        ∷ []))
