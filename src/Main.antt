-- ===== src/Main.antt =====
-- main of src/main.cpp, and init_logger of src/logger.cpp.
--
-- getopt and atoi are parameters: the options are given as they are read. What main prints is left
-- out. The window of the history is not negative.
pub mod Listing
use bms_bridge.Base.{
  ℕ, ◌*◌, List, [], ◌∷◌, ◌++◌, Option, none, some, Bool, true, false, not, ◌&&◌, ltb, if◌then◌else◌,
  map, Bytes, ℤ, pos, negsuc, pos_part, u16_of,
}
use bms_bridge.Battery.Assembly.{TransportOf, Assembly, start_battery, stop_battery}
use bms_bridge.Battery.State.{SharedState, new_state}
use bms_bridge.Config.{is_empty, is_positive}
use bms_bridge.Config.Types.{BatteryConfig, AppConfig, ConfigError, Result, ok, fail}
use bms_bridge.History.{Sqlite, History, ensure_battery_id}
use bms_bridge.History.Opening.{
  Opener, Opened, cannot_open, cannot_execute, cannot_prepare, opened, open_history,
}
use bms_bridge.History.Aggregate.{Doubles, DailyStore, aggregate_pending}
use bms_bridge.Inverter.{Battery, Inverter, new_inverter}
use bms_bridge.Inverter.Mirrors.{devices}

pub data CliOption : Type 0 where
  level : ℤ → CliOption
  db_path : Bytes → CliOption
  help : CliOption
  unknown : CliOption

pub data Exit : Type 0 where
  success failure : Exit

-- The values of the options; a level of -1 and an empty path are not given.
pub record Cli : Type 0 where
  pub cli_log_level : ℤ
  pub cli_db_path : Bytes

abbrev pub no_options : Cli
no_options = record { cli_log_level = negsuc 0; cli_db_path = [] }

pub data Parsed : Type 0 where
  exits : Exit → Parsed
  goes_on : Cli → Parsed

abbrev in_levels : ℤ → Bool
in_levels (pos n) = ltb 0 n && ltb n 6
in_levels (negsuc n) = false

unfoldable pub parse_options : List CliOption → Cli → Parsed
parse_options [] cli = goes_on cli
parse_options (level n ∷ os) cli =
    let rest = parse_options os (record cli { cli_log_level = n }) in
    if in_levels n then rest else exits failure
parse_options (db_path p ∷ os) cli = parse_options os (record cli { cli_db_path = p })
parse_options (help ∷ os) cli = exits success
parse_options (unknown ∷ os) cli = exits failure

-- What the options put in place of the configuration's.
unfoldable pub overridden : Cli → AppConfig → AppConfig
overridden cli cfg = record cfg {
  log_level = if is_positive cli.cli_log_level then cli.cli_log_level else cfg.log_level;
  history = record cfg.history {
    db_path = if is_empty cli.cli_db_path then cfg.history.db_path else cli.cli_db_path;
  };
}

pub data LogLevel : Type 0 where
  err warn info debug trace : LogLevel

pub data LogSink : Type 0 where
  to_stdout : LogSink
  to_file : Bytes → LogSink

-- The verbosity is brought into 1 to 5.
unfoldable pub log_level_of : ℤ → LogLevel
log_level_of (negsuc n) = err
log_level_of (pos n) =
    if ltb n 2
    then err
    else if ltb n 3
    then warn
    else if ltb n 4
    then info
    else if ltb n 5
    then debug
    else trace

unfoldable pub init_logger : ℤ → Bytes → LogLevel × List LogSink
unfolding log_level_of
init_logger verbosity log_file =
    (log_level_of verbosity, to_stdout ∷ (if is_empty log_file then [] else to_file log_file ∷ []))

-- What stands when the dispatcher runs.
pub record System (D : Type 0) : Type 0 where
  pub logger : LogLevel × List LogSink
  pub history : History D
  pub started : List (Option Assembly)
  pub inverter : Inverter
  pub port : ℕ
  pub root : Bytes
  pub aggregate_period_ms : ℤ

-- What main stops behind the dispatcher's run, in this order.
pub data Part : Type 0 where
  http_server : Part
  transport : TransportOf → Part

unfoldable pub stop_batteries : List (Option Assembly) → List Part
unfolding stop_battery
stop_batteries [] = []
stop_batteries (b ∷ bs) = map transport (stop_battery b) ++ stop_batteries bs

unfoldable pub shutdown : {D : Type 0} → System D → List Part
unfolding stop_batteries
shutdown s = http_server ∷ stop_batteries s.started

-- main exits, ends by an exception, or has the system that the dispatcher runs.
pub data Outcome (D : Type 0) : Type 0 where
  ends : Exit → Outcome D
  throws : Outcome D
  runs : System D → Outcome D

module _ {D : Type 0} (S : Sqlite D) where
  -- Every configured battery gets a row in the table of the batteries.
  unfoldable pub ensure_all : List BatteryConfig → History D → History D
  unfolding ensure_battery_id
  ensure_all [] h = h
  ensure_all (bc ∷ bcs) h = ensure_all bcs (ensure_battery_id S bc.name h).1

module _ {D F : Type 0} (S : Sqlite D) (Y : DailyStore D F) (N : Doubles F) where
  unfoldable pub system : (day_start : Bytes → ℕ) (now_ms : ℕ) → AppConfig → History D → System D
  unfolding init_logger ensure_all aggregate_pending start_battery new_inverter
  system day_start now_ms cfg h =
      let known = ensure_all S cfg.batteries h in
      record {
        logger = init_logger cfg.log_level cfg.log_file;
        history = record known { db = aggregate_pending S Y N day_start now_ms known.db };
        aggregate_period_ms = pos 3600000;
        started = map start_battery cfg.batteries;
        inverter = new_inverter (devices (λ name. new_state) cfg.batteries);
        port = u16_of cfg.http.http_port;
        root = cfg.http.www_root;
      }

module _ {D F : Type 0} (O : Opener D) (S : Sqlite D) (Y : DailyStore D F) (N : Doubles F) where
  -- Behind the history's constructor. `listens` says whether libevent can bind the port.
  unfoldable pub start_over :
      (day_start : Bytes → ℕ) (now_ms : ℕ) (listens : Bool) → AppConfig → Opened D → Outcome D
  unfolding system
  start_over day_start now_ms listens cfg cannot_open = throws
  start_over day_start now_ms listens cfg (cannot_execute s) = throws
  start_over day_start now_ms listens cfg (cannot_prepare s) = throws
  start_over day_start now_ms listens cfg (opened reader h) =
      if listens then runs (system S Y N day_start now_ms cfg h) else throws

  -- Behind load_config.
  unfoldable pub start_up :
      (day_start : Bytes → ℕ) (now_ms : ℕ) (listens : Bool) → Cli → Result AppConfig → Outcome D
  unfolding start_over open_history overridden
  start_up day_start now_ms listens cli (fail e) = ends failure
  start_up day_start now_ms listens cli (ok loaded) =
      let cfg = overridden cli loaded in
      start_over day_start now_ms listens cfg
        (open_history O cfg.history.db_path (pos_part cfg.history.ram_window_s * 1000))

  unfoldable pub behind_options :
      (day_start : Bytes → ℕ) (now_ms : ℕ) (listens : Bool) → Result AppConfig → Parsed → Outcome D
  unfolding start_up
  behind_options day_start now_ms listens loaded (exits e) = ends e
  behind_options day_start now_ms listens loaded (goes_on cli) =
      start_up day_start now_ms listens cli loaded

  -- `loaded` is what load_config makes of the file.
  unfoldable pub main :
      (day_start : Bytes → ℕ) (now_ms : ℕ) (listens : Bool)
      → List CliOption
      → Result AppConfig
      → Outcome D
  unfolding parse_options behind_options
  main day_start now_ms listens options loaded =
      behind_options day_start now_ms listens loaded (parse_options options no_options)
