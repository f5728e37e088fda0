-- ===== src/Tests/Start.antt =====
-- The program is started over an empty database, and a page of its history is read.
use bms_bridge.Base.{ℕ, ◌≡◌, refl, [], ◌∷◌, none, some, true, false, All, map, pos, arith}
use bms_bridge.Config.Types.{BatteryConfig, ttl, parsed}
use bms_bridge.Config.{load_config}
use bms_bridge.History.{battery_list}
use bms_bridge.History.Known.{Inserts}
use bms_bridge.History.Opening.{
  Opener, opened, open_history, history_over, open_db, behind_statements, execute,
  prepare_statements,
}
use bms_bridge.History.Opening.Outcomes.{Ready, Met, open_history-Met}
use bms_bridge.History.Rows.{TelemetrySample}
use bms_bridge.Http.Json.Samples.{history_json}
use bms_bridge.Http.Json.Batteries.{battery_to_cjson, battery_trees}
use bms_bridge.Http.Json.Listing.{Has}
use bms_bridge.Http.Json.Reading.{IsExact, read_page}
use bms_bridge.Http.Json.RoundTrip.{sent_part, read_page-history_json}
use bms_bridge.Main.{
  System, runs, level, main, parse_options, behind_options, start_up, start_over, overridden,
  system, no_options,
}
use bms_bridge.Main.Listing.{main-listed}
use bms_bridge.Tests.{pack}
use bms_bridge.Tests.Store.{
  Db, sqlite, empty_db, whole_numbers, daily_store, two_cells, two_cells-IsCells, pack-IsPack,
}
use bms_bridge.Tests.Setup.{document, web, store, loaded, load_run}

whole_numbers-IsExact : IsExact whole_numbers
whole_numbers-IsExact = record { int_of = λ z. z; int_of-of_int = λ z h. refl }

abbrev shown : TelemetrySample
shown = record { battery_id = b'm' ∷ []; ts = 1728000000; cells = two_cells; pack = pack }

read_page-history_json_example :
    read_page whole_numbers-IsExact (history_json whole_numbers (b'q' ∷ []) (shown ∷ []))
    ≡ some (b'q' ∷ [], map sent_part (shown ∷ []))
read_page-history_json_example =
    read_page-history_json whole_numbers-IsExact (b'q' ∷ []) (shown ∷ [])
      (record { ts = omega arith; cells = two_cells-IsCells; pack = pack-IsPack }, tt)

-- Every call succeeds, but for the read-only connection.
abbrev opener : Opener Db
opener = record {
  open_readwrite = λ path. some empty_db;
  exec = λ s d. (true, d);
  select_batteries = λ d. none;
  open_readonly = λ path d. false;
  prepare = λ q d. true;
}

open_history-Met_example :
    Met opener [] 60 (open_history opener [] 60)
    × ((d e : Db)
        → Ready opener [] d e
        → open_history opener [] 60 ≡ opened false (history_over opener 60 e))
open_history-Met_example = open_history-Met opener [] 60

sqlite-Inserts : Inserts sqlite
sqlite-Inserts name d e = (1, refl)

abbrev running : System Db
running =
    system sqlite daily_store whole_numbers (λ date. 0) 1728000500
      (overridden (record no_options { cli_log_level = pos 5 }) loaded)
      (history_over opener 86400000 empty_db)

main_run :
    main opener sqlite daily_store whole_numbers
      (λ date. 0)
      1728000500
      true
      (level (pos 5) ∷ [])
      (load_config ttl web store (parsed document))
    ≡ runs running
unfolding main parse_options behind_options start_up start_over overridden open_db behind_statements
    execute prepare_statements
main_run = rw load_run refl

main-listed_example :
    All
      (λ (bc : BatteryConfig).
        (id : ℕ) × Has
          (battery_to_cjson whole_numbers id bc.name (some bc))
          (battery_trees whole_numbers loaded.batteries (battery_list running.history.names)))
      loaded.batteries
main-listed_example =
    main-listed opener sqlite daily_store whole_numbers (λ date. 0) 1728000500 true ttl web store
      (parsed document) (level (pos 5) ∷ []) loaded running sqlite-Inserts load_run main_run
