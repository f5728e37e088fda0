-- ===== src/Http/Json/Replies.antt =====
-- What is sent for the outcomes of /history, /daily and /batteries of src/http_server.cpp.
use bms_bridge.Base.{ℕ, List, Bytes}
use bms_bridge.Config.Types.{BatteryConfig}
use bms_bridge.History.Aggregate.{Doubles}
use bms_bridge.Http.Pages.{Reply, bad_request, not_found, page}
use bms_bridge.Http.Daily.{DailyReply}
use bms_bridge.Http.Json.{
  Printer, cjson_print, JsonReply, send_json, http_ok, http_bad_request, http_not_found,
}
use bms_bridge.Http.Json.Texts.{no_req_id_text, unknown_req_id_text}
use bms_bridge.Http.Json.Samples.{history_json, daily_json}
use bms_bridge.Http.Json.Batteries.{batteries_json}

module _ {F : Type 0} (N : Doubles F) (print : Printer F) where
  unfoldable pub history_reply : Reply → JsonReply
  unfolding send_json cjson_print history_json
  history_reply bad_request = send_json http_bad_request no_req_id_text
  history_reply not_found = send_json http_not_found unknown_req_id_text
  history_reply (page req_id shown) =
      send_json http_ok (cjson_print print (history_json N req_id shown))

  unfoldable pub days_reply : DailyReply F → JsonReply
  unfolding send_json cjson_print daily_json
  days_reply r = send_json http_ok (cjson_print print (daily_json N r))

  unfoldable pub batteries_reply : List (Bytes × ℕ) → List BatteryConfig → JsonReply
  unfolding send_json cjson_print batteries_json
  batteries_reply names configs =
      send_json http_ok (cjson_print print (batteries_json N names configs))
