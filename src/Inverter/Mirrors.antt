-- ===== src/Inverter/Mirrors.antt =====
-- The inverter's batteries come from a configuration that has loaded, so a reserve has its mirror.
use bms_bridge.Base.{
  ℕ, zero, suc, ◌+◌, ◌≡◌, ◌∙◌, ap, subst, List, [], ◌∷◌, some, some_inj, Bool, true, false,
  if◌then◌else◌, All, get_elem?, Bytes, same_name, arith,
}
use bms_bridge.Battery.State.{SharedState}
use bms_bridge.Config.Types.{
  BatteryLink, BatteryConfig, is_monitored, AppConfig, HttpConfig, HistoryConfig, Parse, ok,
}
use bms_bridge.Config.{find_battery, load_config}
use bms_bridge.Config.Validity.{Mirrors, load_config-IsValid}
use bms_bridge.Inverter.{Battery, find_named, mirror_of}

-- The Battery that main constructs from a block, with the state that `states` names.
abbrev pub device : (Bytes → SharedState) → BatteryConfig → Battery
device states bc = record {
  name = bc.name;
  monitored = is_monitored bc;
  mirror = bc.mirror;
  capacity = bc.capacity;
  state = states bc.name;
}

abbrev pub devices : (Bytes → SharedState) → List BatteryConfig → List Battery
devices states [] = []
devices states (bc ∷ bcs) = device states bc ∷ devices states bcs

All-get :
    {A : Type 0} (P : A → Type 0) (xs : List A) (k : ℕ) (x : A)
    → All P xs
    → get_elem? xs k ≡ some x
    → P x
All-get P [] k x h e = cc
All-get P (y ∷ ys) zero x h e = subst P (some_inj e) h.0
All-get P (y ∷ ys) (suc k) x h e = All-get P ys k x h.1 e

-- What the configuration's search finds, the inverter's search finds too.
find_named-device :
    (states : Bytes → SharedState) (want : Bytes) (i : ℕ) (bcs : List BatteryConfig)
    (o : BatteryConfig)
    → find_battery want bcs ≡ some o
    → (j : ℕ) × (find_named want i (devices states bcs) ≡ some (i + j))
      × (get_elem? (devices states bcs) j ≡ some (device states o))
unfolding find_named find_battery
find_named-device states want i [] o e = cc
find_named-device states want i (bc ∷ bcs) o e =
    go (same_name bc.name want) e (find_named-device states want (i + 1) bcs o)
  where
    here : i ≡ i + 0
    here = omega arith

    later : (j : ℕ) → i + 1 + j ≡ i + suc j
    later j = omega arith

    go :
        (b : Bool)
        → (if b then some bc else find_battery want bcs) ≡ some o
        → (find_battery want bcs ≡ some o
            → (j : ℕ) × (find_named want (i + 1) (devices states bcs) ≡ some (i + 1 + j))
              × (get_elem? (devices states bcs) j ≡ some (device states o)))
        → (j : ℕ) × ((if b then some i else find_named want (i + 1) (devices states bcs))
            ≡ some (i + j))
          × (get_elem? (device states bc ∷ devices states bcs) j ≡ some (device states o))
    go true e rec = (0, ap some here, ap (λ x. some (device states x)) (some_inj e))
    go false e rec = let (j, p, q) = rec e in (suc j, p ∙ ap some (later j), q)

mirror_of-device :
    (states : Bytes → SharedState) (all : List BatteryConfig) (bc : BatteryConfig)
    → is_monitored bc ≡ false
    → Mirrors all bc
    → (j : ℕ) × (o : BatteryConfig) × (mirror_of (devices states all) (device states bc) ≡ some j)
      × (get_elem? (devices states all) j ≡ some (device states o))
      × (is_monitored o ≡ true)
unfolding mirror_of
mirror_of-device states all bc r m =
    let (o, found, mon) = m r in
    let (j, p, q) = find_named-device states bc.mirror 0 all o found in
    let place : 0 + j ≡ j = omega arith in (j, o, rw r (p ∙ ap some place), q, mon)

-- For a configuration that loads, and whatever the batteries' states: the inverter resolves the
-- mirror of every reserve to a battery of its list, and that battery is monitored.
pub mirror_of-load_config :
    (unset : BatteryLink) (http : HttpConfig) (history : HistoryConfig) (p : Parse) (c : AppConfig)
    (states : Bytes → SharedState) (k : ℕ) (bc : BatteryConfig)
    → load_config unset http history p ≡ ok c
    → get_elem? c.batteries k ≡ some bc
    → is_monitored bc ≡ false
    → (j : ℕ) × (o : BatteryConfig) × (mirror_of (devices states c.batteries) (device states bc)
        ≡ some j)
      × (get_elem? (devices states c.batteries) j ≡ some (device states o))
      × (is_monitored o ≡ true)
mirror_of-load_config unset http history p c states k bc h at r =
    let valid = load_config-IsValid unset http history p c h in
    mirror_of-device states c.batteries bc r
      (All-get (Mirrors c.batteries) c.batteries k bc valid.mirrors at)
