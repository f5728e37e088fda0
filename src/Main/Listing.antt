-- ===== src/Main/Listing.antt =====
-- What /batteries lists when the program has started.
use bms_bridge.Base.{
  ℕ, ◌*◌, pos_part, ◌≡◌, sym, ap, subst, ◌∙◌, List, [], ◌∷◌, some, Bool, Bool-cases, inl, inr, All,
  All-map_both, Bytes,
}
use bms_bridge.Config.Types.{
  BatteryLink, BatteryConfig, AppConfig, HttpConfig, HistoryConfig, Parse, ok,
}
use bms_bridge.Config.{load_config}
use bms_bridge.Config.Validity.{IsValid, load_config-IsValid}
use bms_bridge.History.{Sqlite, History, cached, battery_list, ensure_battery_id}
use bms_bridge.History.Known.{Known, Inserts, ensure-keeps, ensure-Known}
use bms_bridge.History.Opening.{
  Opener, Opened, cannot_open, cannot_execute, cannot_prepare, opened, open_history,
}
use bms_bridge.History.Aggregate.{Doubles, DailyStore}
use bms_bridge.Http.Json.Batteries.{battery_to_cjson, battery_trees}
use bms_bridge.Http.Json.Listing.{
  Has, cached-Has, battery_list-Has, battery_trees-Has, config_named-Fresh,
}
use bms_bridge.Main.{
  ensure_all, runs, throws, System, CliOption, Parsed, exits, goes_on, main, system, start_over,
  start_up, behind_options, parse_options, no_options, overridden,
}

module _ {D : Type 0} (S : Sqlite D) where
  ensure_all-keeps :
      (name : Bytes) (bcs : List BatteryConfig) (h : History D)
      → Known name h.names
      → Known name (ensure_all S bcs h).names
  unfolding ensure_all
  ensure_all-keeps name [] h k = k
  ensure_all-keeps name (bc ∷ bcs) h k =
      ensure_all-keeps name bcs (ensure_battery_id S bc.name h).1 (ensure-keeps S name bc.name h k)

  ensure_all-Known :
      Inserts S
      → (bcs : List BatteryConfig) (h : History D)
      → All (λ (bc : BatteryConfig). Known bc.name (ensure_all S bcs h).names) bcs
  unfolding ensure_all
  ensure_all-Known ins [] h = tt
  ensure_all-Known ins (bc ∷ bcs) h = (
    ensure_all-keeps bc.name bcs (ensure_battery_id S bc.name h).1 (ensure-Known S ins bc.name h),
    ensure_all-Known ins bcs (ensure_battery_id S bc.name h).1,
  )

module _ {D F : Type 0} (O : Opener D) (S : Sqlite D) (Y : DailyStore D F) (N : Doubles F)
    (day_start : Bytes → ℕ) (now_ms : ℕ) (listens : Bool) where
  -- The history of a system that runs comes from the ids of all its batteries.
  abbrev Ensured : AppConfig → System D → Type 0
  Ensured cfg s = (h : History D) × (s.history.names ≡ (ensure_all S cfg.batteries h).names)

  runs_inj : {s t : System D} → runs s ≡ runs t → s ≡ t
  runs_inj e = cc

  start_over-Ensured :
      (cfg : AppConfig) (o : Opened D) (s : System D)
      → start_over O S Y N day_start now_ms listens cfg o ≡ runs s
      → Ensured cfg s
  unfolding start_over system
  start_over-Ensured cfg cannot_open s e = cc
  start_over-Ensured cfg (cannot_execute st) s e = cc
  start_over-Ensured cfg (cannot_prepare st) s e = cc
  start_over-Ensured cfg (opened reader h) s e = elim (Bool-cases listens) [
    | inl l ↦ (h, ap (λ (t : System D). t.history.names) (sym (runs_inj (rw l at e))))
    | inr l ↦ absurd (never s (rw l at e))
  ]
    where
      never : (s : System D) → throws ≡ runs s → ⊥
      never s e = cc

  behind_options-Ensured :
      (cfg : AppConfig) (p : Parsed) (s : System D)
      → behind_options O S Y N day_start now_ms listens (ok cfg) p ≡ runs s
      → Ensured cfg s
  unfolding behind_options start_up
  behind_options-Ensured cfg (exits x) s e = cc
  behind_options-Ensured cfg (goes_on cli) s e =
      start_over-Ensured (overridden cli cfg)
        (open_history O (overridden cli cfg).history.db_path
          (pos_part (overridden cli cfg).history.ram_window_s * 1000))
        s e

  main-Ensured :
      (options : List CliOption) (cfg : AppConfig) (s : System D)
      → main O S Y N day_start now_ms listens options (ok cfg) ≡ runs s
      → Ensured cfg s
  unfolding main
  main-Ensured options cfg s e = behind_options-Ensured cfg (parse_options options no_options) s e

  listed :
      (cfg : AppConfig) (s : System D)
      → Inserts S
      → IsValid cfg
      → Ensured cfg s
      → All
          (λ (bc : BatteryConfig).
            (id : ℕ) × Has
              (battery_to_cjson N id bc.name (some bc))
              (battery_trees N cfg.batteries (battery_list s.history.names)))
          cfg.batteries
  listed cfg s ins v (h, e) =
      All-map_both
        (λ (bc : BatteryConfig) k first.
          let (id, found) = k in
          let line = battery_trees-Has N cfg.batteries bc.name id (battery_list s.history.names) (
            battery_list-Has (bc.name, id) s.history.names
              (cached-Has bc.name id s.history.names (ap (cached bc.name) e ∙ found))) in
          (
            id,
            subst
                (λ c.
                  Has (battery_to_cjson N id bc.name c)
                    (battery_trees N cfg.batteries (battery_list s.history.names)))
                first line,
          ))
        cfg.batteries (ensure_all-Known S ins cfg.batteries h)
        (config_named-Fresh [] cfg.batteries v.distinct)

  -- When the configuration loads, main comes to run the dispatcher, and no INSERT of a battery fails:
  -- /batteries has for every configured battery a line with an id, its name and the values of its
  -- own block, which is no legacy data, whatever the database held before and before any sample.
  pub main-listed :
      (unset : BatteryLink) (http : HttpConfig) (history : HistoryConfig) (p : Parse)
      (options : List CliOption) (cfg : AppConfig) (s : System D)
      → Inserts S
      → load_config unset http history p ≡ ok cfg
      → main O S Y N day_start now_ms listens options (load_config unset http history p) ≡ runs s
      → All
          (λ (bc : BatteryConfig).
            (id : ℕ) × Has
              (battery_to_cjson N id bc.name (some bc))
              (battery_trees N cfg.batteries (battery_list s.history.names)))
          cfg.batteries
  main-listed unset http history p options cfg s ins loads e =
      listed cfg s ins (load_config-IsValid unset http history p cfg loads)
        (main-Ensured options cfg s (rw loads at e))
