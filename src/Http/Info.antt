-- ===== src/Http/Info.antt =====
-- What /info and /batteries tell of the batteries: handle_info, handle_batteries and state_for of
-- src/http_server.cpp. Http.Json.Batteries has the JSON.
use bms_bridge.Base.{
  ℕ, ◌*◌, ◌/◌, ◌≡◌, refl, List, [], ◌∷◌, Option, none, some, true, false, not, if◌then◌else◌, Bytes,
  same_name, u32, u32_of, ℤ, pos, arith,
}
use bms_bridge.Jk.Types.{JkPackInfo, JkSettings}
use bms_bridge.Battery.State.{SharedState, snapshot}
use bms_bridge.Inverter.{Battery, capacity_mah, reserve_pack, reserve_limits}
use bms_bridge.History.{battery_name, battery_list}

pub data Info : Type 0 where
  not_in_config : Info
  no_live_data : Info
  no_settings_yet : Info
  -- mirror, capacity_mah, charge and discharge limit, soc_pct, current_ma
  reserve_info : Bytes → ℕ → ℕ → ℕ → ℕ → ℤ → Info
  settings_info : JkSettings → Info

-- The first battery with the name.
unfoldable pub with_name : Bytes → List Battery → Option Battery
with_name name [] = none
with_name name (b ∷ bs) =
    let rest = with_name name bs in if same_name b.name name then some b else rest

unfoldable pub state_for : Bytes → List Battery → Option SharedState
state_for name [] = none
state_for name (b ∷ bs) =
    let rest = state_for name bs in if same_name b.name name then some b.state else rest

unfoldable pub reserve_reply : Battery → Info
reserve_reply b =
    let cap_mah = u32 (u32_of b.capacity * 1000) in
    let limit_ma = u32 (u32 (u32_of b.capacity * 1000) * 5) / 10 in
    reserve_info b.mirror cap_mah limit_ma limit_ma 100 (pos 0)

unfoldable pub live_reply : Option SharedState → Info
live_reply none = no_live_data
live_reply (some st) = elim (snapshot st).settings [
  | none ↦ no_settings_yet
  | some s ↦ settings_info s
]

-- `names` is the history's cache, and `id` the battery that the request names.
unfoldable pub handle_info : ℕ → List (Bytes × ℕ) → List Battery → Info
unfolding battery_name with_name state_for reserve_reply live_reply
handle_info id names batteries =
    let name = battery_name id names in
    elim (with_name name batteries) [
      | none ↦ not_in_config
      | some b ↦ if not b.monitored then reserve_reply b else live_reply (state_for name batteries)
    ]

-- The lines of /batteries: the id, the name, and the configured battery unless it is legacy data.
unfoldable pub battery_lines : List Battery → List (Bytes × ℕ) → List (ℕ × Bytes × Option Battery)
unfolding with_name
battery_lines batteries [] = []
battery_lines batteries ((name, id) ∷ rest) =
    (id, name, with_name name batteries) ∷ battery_lines batteries rest

unfoldable pub handle_batteries :
    List (Bytes × ℕ) → List Battery → List (ℕ × Bytes × Option Battery)
unfolding battery_list battery_lines
handle_batteries names batteries = battery_lines batteries (battery_list names)

state_for-with_name :
    (name : Bytes) (bs : List Battery) (b : Battery)
    → with_name name bs ≡ some b
    → state_for name bs ≡ some b.state
unfolding with_name state_for
state_for-with_name name [] b e = cc
state_for-with_name name (c ∷ bs) b e = ground (arith, state_for-with_name name bs b)

-- For the battery that an id names: a reserve shows the capacity and the limits that the inverter is
-- told for it, whatever the mirrored telemetry, but an SoC of 100; a monitored one shows exactly
-- the settings of its shared state, and an error while there are none.
pub handle_info-inverter :
    (id : ℕ) (names : List (Bytes × ℕ)) (batteries : List Battery) (b : Battery)
    → with_name (battery_name id names) batteries ≡ some b
    → (b.monitored ≡ false
        → (p : JkPackInfo) (l : JkSettings)
        → handle_info id names batteries
          ≡ reserve_info b.mirror
              (reserve_pack b p).total_capacity_mah
              (reserve_limits b l).max_charge_current_ma
              (reserve_limits b l).max_discharge_current_ma
              100
              (reserve_pack b p).current_ma)
      × (b.monitored ≡ true
          → (s : JkSettings) → (snapshot b.state).settings ≡ some s
          → handle_info id names batteries ≡ settings_info s)
      × (b.monitored ≡ true
          → (snapshot b.state).settings ≡ none
          → handle_info id names batteries ≡ no_settings_yet)
unfolding handle_info reserve_reply live_reply reserve_pack reserve_limits capacity_mah snapshot
handle_info-inverter id names batteries b e =
    let live = state_for-with_name (battery_name id names) batteries b e in
    (
      (λ m p l. rw (e, handle_info, m) refl),
      (λ m s q. rw (e, handle_info, m, live, q) refl),
      (λ m q. rw (e, handle_info, m, live, q) refl),
    )
