-- ===== src/Http/Json/Batteries.antt =====
-- The trees of /batteries and /info: handle_batteries and handle_info of src/http_server.cpp.
use bms_bridge.Base.{
  ℕ, List, [], ◌∷◌, Option, none, some, true, false, if◌then◌else◌, Bytes, same_name, ℤ,
}
use bms_bridge.Config.{jk_bt_word}
use bms_bridge.Config.Types.{BatteryConfig, is_monitored}
use bms_bridge.Jk.Types.{JkSettings}
use bms_bridge.History.{battery_list}
use bms_bridge.History.Aggregate.{Doubles}
use bms_bridge.Http.Info.{
  Info, not_in_config, no_live_data, no_settings_yet, reserve_info, settings_info,
}
use bms_bridge.Http.Json.{
  Json, boolean, string, array, object, items, fields, Printer, cjson_print, JsonReply, send_json,
  http_ok, http_not_found,
}
use bms_bridge.Http.Json.Samples.{signed_number, count}
use bms_bridge.Http.Json.Texts.{
  legacy_link, not_in_config_text, no_live_data_text, no_settings_text,
}

-- The first configured battery with the name.
unfoldable pub config_named : Bytes → List BatteryConfig → Option BatteryConfig
config_named name [] = none
config_named name (c ∷ cs) =
    let rest = config_named name cs in if same_name c.name name then some c else rest

module _ {F : Type 0} (N : Doubles F) where
  -- A line of /batteries; one that is not configured is legacy data.
  unfoldable pub battery_to_cjson : ℕ → Bytes → Option BatteryConfig → Json F
  battery_to_cjson id name (some c) = object (
      fields (
        ("id", count N id)
        ∷ ("name", string name)
        ∷ ("link", string c.link_raw)
        ∷ ("protocol", string c.protocol)
        ∷ ("monitored", boolean (is_monitored c))
        ∷ ("capacity", signed_number N c.capacity)
        ∷ ("legacy", boolean false)
        ∷ []))
  battery_to_cjson id name none = object (
      fields (
        ("id", count N id)
        ∷ ("name", string name)
        ∷ ("link", string legacy_link)
        ∷ ("protocol", string jk_bt_word)
        ∷ ("monitored", boolean false)
        ∷ ("capacity", count N 0)
        ∷ ("legacy", boolean true)
        ∷ []))

  unfoldable pub battery_trees : List BatteryConfig → List (Bytes × ℕ) → List (Json F)
  unfolding config_named battery_to_cjson
  battery_trees configs [] = []
  battery_trees configs ((name, id) ∷ rest) =
      battery_to_cjson id name (config_named name configs) ∷ battery_trees configs rest

  -- `names` is the history's cache.
  unfoldable pub batteries_json : List (Bytes × ℕ) → List BatteryConfig → Json F
  unfolding battery_list battery_trees
  batteries_json names configs = array (items (battery_trees configs (battery_list names)))

  unfoldable pub reserve_json :
      (mirror : Bytes) (capacity_mah charge_limit discharge_limit soc_pct : ℕ) (current_ma : ℤ)
      → Json F
  reserve_json mirror capacity_mah charge_limit discharge_limit soc_pct current_ma = object (
      fields (
        ("reserve", boolean true)
        ∷ ("mirror", string mirror)
        ∷ ("capacity_mah", count N capacity_mah)
        ∷ ("charge_current_limit_ma", count N charge_limit)
        ∷ ("discharge_current_limit_ma", count N discharge_limit)
        ∷ ("soc_pct", count N soc_pct)
        ∷ ("current_ma", signed_number N current_ma)
        ∷ []))

  unfoldable pub settings_json : JkSettings → Json F
  settings_json s = object (
      fields (
        ("cell_count", count N s.cell_count)
        ∷ ("nominal_capacity_mah", count N s.nominal_capacity_mah)
        ∷ ("cell_uvp_mv", count N s.cell_uvp_mv)
        ∷ ("cell_uvpr_mv", count N s.cell_uvpr_mv)
        ∷ ("cell_ovp_mv", count N s.cell_ovp_mv)
        ∷ ("cell_ovpr_mv", count N s.cell_ovpr_mv)
        ∷ ("soc_100_mv", count N s.soc_100_mv)
        ∷ ("soc_0_mv", count N s.soc_0_mv)
        ∷ ("balance_trigger_mv", count N s.balance_trigger_mv)
        ∷ ("start_balance_mv", count N s.start_balance_mv)
        ∷ ("max_charge_current_ma", count N s.max_charge_current_ma)
        ∷ ("max_discharge_current_ma", count N s.max_discharge_current_ma)
        ∷ ("max_balance_current_ma", count N s.max_balance_current_ma)
        ∷ ("charge_ocp_delay_s", count N s.charge_ocp_delay_s)
        ∷ ("charge_ocp_recovery_s", count N s.charge_ocp_recovery_s)
        ∷ ("discharge_ocp_delay_s", count N s.discharge_ocp_delay_s)
        ∷ ("discharge_ocp_recovery_s", count N s.discharge_ocp_recovery_s)
        ∷ ("scp_delay_us", count N s.scp_delay_us)
        ∷ ("scp_recovery_s", count N s.scp_recovery_s)
        ∷ ("charge_otp_dC", signed_number N s.charge_otp_dc)
        ∷ ("charge_otp_recovery_dC", signed_number N s.charge_otp_recovery_dc)
        ∷ ("discharge_otp_dC", signed_number N s.discharge_otp_dc)
        ∷ ("discharge_otp_recovery_dC", signed_number N s.discharge_otp_recovery_dc)
        ∷ ("charge_utp_dC", signed_number N s.charge_utp_dc)
        ∷ ("charge_utp_recovery_dC", signed_number N s.charge_utp_recovery_dc)
        ∷ ("mosfet_otp_dC", signed_number N s.mosfet_otp_dc)
        ∷ ("mosfet_otp_recovery_dC", signed_number N s.mosfet_otp_recovery_dc)
        ∷ ("smart_sleep_mv", count N s.smart_sleep_mv)
        ∷ ("power_off_mv", count N s.power_off_mv)
        ∷ ("request_charge_mv", count N s.request_charge_mv)
        ∷ ("request_float_mv", count N s.request_float_mv)
        ∷ ("charging_switch_on", boolean s.charging_switch_on)
        ∷ ("discharging_switch_on", boolean s.discharging_switch_on)
        ∷ ("balancer_switch_on", boolean s.balancer_switch_on)
        ∷ []))

  unfoldable pub info_reply : Printer F → Info → JsonReply
  unfolding send_json cjson_print settings_json reserve_json
  info_reply print not_in_config = send_json http_not_found not_in_config_text
  info_reply print no_live_data = send_json http_not_found no_live_data_text
  info_reply print no_settings_yet = send_json http_not_found no_settings_text
  info_reply print (reserve_info mirror cap charge discharge soc current) =
      send_json http_ok (cjson_print print (reserve_json mirror cap charge discharge soc current))
  info_reply print (settings_info s) = send_json http_ok (cjson_print print (settings_json s))
