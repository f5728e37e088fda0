-- ===== src/Battery/State.antt =====
-- SharedState of include/shared_state.hpp. The mutex makes each method one step. Times are
-- milliseconds of the steady clock.
use bms_bridge.Base.{ℕ, ◌-◌, Option, none, some, Bool, true, false, not, leb, ◌||◌, if◌then◌else◌}
use bms_bridge.Jk.Types.{JkCellInfo, JkPackInfo, JkSettings}

pub record SharedState : Type 0 where
  pub connected : Bool
  pub cells : Option JkCellInfo
  pub pack : Option JkPackInfo
  pub settings : Option JkSettings
  pub updated_at : ℕ

-- BmsSnapshot has the same fields.
abbrev pub BmsSnapshot : Type 0
BmsSnapshot = SharedState

abbrev pub new_state : SharedState
new_state = record { connected = false; cells = none; pack = none; settings = none; updated_at = 0 }

unfoldable pub set_connected : Bool → SharedState → SharedState
set_connected v s = record s { connected = v }

unfoldable pub apply_telemetry : (now : ℕ) → JkCellInfo → JkPackInfo → SharedState → SharedState
apply_telemetry now c p s = record s { cells = some c; pack = some p; updated_at = now }

unfoldable pub apply_settings : JkSettings → SharedState → SharedState
apply_settings settings s = record s { settings = some settings }

unfoldable pub snapshot : SharedState → BmsSnapshot
snapshot s = s

abbrev pub has_value {ℓ} : {A : Type ℓ} → Option A → Bool
has_value none = false
has_value (some a) = true

unfoldable pub is_fresh : (now max_age : ℕ) → SharedState → Bool
is_fresh now max_age s =
    if not s.connected || not (has_value s.cells) || not (has_value s.pack)
    then false
    else leb (now - s.updated_at) max_age
