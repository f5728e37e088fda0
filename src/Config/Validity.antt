-- ===== src/Config/Validity.antt =====
-- What a configuration that loads is like.
use bms_bridge.Base.{
  ◌≡◌, refl, sym, subst, List, [], ◌∷◌, Option, none, some, Bool, true, false, not, ◌&&◌,
  if◌then◌else◌, All, Bytes,
}
use bms_bridge.Config.Types.{
  BatteryLink, BatteryConfig, is_monitored, AppConfig, HttpConfig, HistoryConfig, BatterySection,
  Document, Parse, file_error, parse_error, parsed, ConfigError, Result, ok, fail, fail_if,
  and_then,
}
use bms_bridge.Config.{
  is_empty, is_positive, sstr, battery_config, seen, check_battery, load_batteries, find_battery,
  mirror_found, check_mirror, check_mirrors, load_document, load_blocks, require_inverter,
  app_config, no_blocks, load_config,
}

ok_inj : {A : Type 0} {a b : A} → ok a ≡ ok b → a ≡ b
ok_inj e = cc

fail_if-ok :
    {A : Type 0} (b : Bool) (e : ConfigError) (r : Result A) (a : A)
    → fail_if b e r ≡ ok a
    → (b ≡ false) × (r ≡ ok a)
fail_if-ok true e r a h = cc
fail_if-ok false e r a h = (refl, h)

and_then-ok :
    {A B : Type 0} (r : Result A) (f : A → Result B) (b : B)
    → and_then r f ≡ ok b
    → (a : A) × (r ≡ ok a) × (f a ≡ ok b)
and_then-ok (ok a) f b h = (a, refl, h)
and_then-ok (fail e) f b h = cc

-- The checks of one block.
pub record IsChecked (bc : BatteryConfig) : Type 0 where
  pub named : is_empty bc.name ≡ false
  pub addressed : is_empty bc.address ≡ false
  pub protocol : is_monitored bc ≡ true → is_empty bc.protocol ≡ false
  pub capacity : is_monitored bc ≡ false → is_positive bc.capacity ≡ true

-- No name of the list is one of those before it, nor in `names`.
abbrev pub Fresh : List Bytes → List BatteryConfig → Type 0
Fresh names [] = Unit
Fresh names (bc ∷ bcs) = (seen bc.name names ≡ false) × Fresh (bc.name ∷ names) bcs

-- The mirror of a reserve is a monitored battery of the list.
abbrev pub Mirrors : List BatteryConfig → BatteryConfig → Type 0
Mirrors all bc =
    is_monitored bc ≡ false
    → (o : BatteryConfig) × (find_battery bc.mirror all ≡ some o) × (is_monitored o ≡ true)

pub record IsValid (c : AppConfig) : Type 0 where
  pub uart : is_empty c.inverter.uart_device ≡ false
  pub checked : All IsChecked c.batteries
  pub distinct : Fresh [] c.batteries
  pub mirrors : All (Mirrors c.batteries) c.batteries

needed : (m p : Bool) → (m && p) ≡ false → m ≡ true → p ≡ false
needed true p h e = h
needed false p h e = cc

positive : (m p : Bool) → (not m && not p) ≡ false → m ≡ false → p ≡ true
positive true p h e = cc
positive false true h e = refl
positive false false h e = cc

check_battery-IsChecked :
    (names : List Bytes) (bc a : BatteryConfig)
    → check_battery names bc ≡ ok a
    → (a ≡ bc) × (seen bc.name names ≡ false) × IsChecked bc
unfolding check_battery
check_battery-IsChecked names bc a h =
    let (named, h1) = fail_if-ok (is_empty bc.name) _ _ a h in
    let (new, h2) = fail_if-ok (seen bc.name names) _ _ a h1 in
    let (addressed, h3) = fail_if-ok (is_empty bc.address) _ _ a h2 in
    let (proto, h4) = fail_if-ok (is_monitored bc && is_empty bc.protocol) _ _ a h3 in
    let (cap, h5) = fail_if-ok (not (is_monitored bc) && not (is_positive bc.capacity)) _ _ a h4 in
    (
      sym (ok_inj h5),
      new,
      record {
        named = named;
        addressed = addressed;
        protocol = needed _ _ proto;
        capacity = positive _ _ cap;
      },
    )

named_by : (unset : BatteryLink) (b : BatterySection) → (battery_config unset b).name ≡ sstr b.title
unfolding battery_config
named_by unset b = refl

load_batteries-IsChecked :
    (unset : BatteryLink) (names : List Bytes) (bs : List BatterySection) (bcs : List BatteryConfig)
    → load_batteries unset names bs ≡ ok bcs
    → All IsChecked bcs × Fresh names bcs
unfolding load_batteries
load_batteries-IsChecked unset names [] bcs h =
    subst (λ xs. All IsChecked xs × Fresh names xs) (ok_inj h) (tt, tt)
load_batteries-IsChecked unset names (b ∷ bs) bcs h =
    let (bc, h1, h2) = and_then-ok (check_battery names (battery_config unset b)) _ bcs h in
    let (rest, h3, h4) = and_then-ok (load_batteries unset (sstr b.title ∷ names) bs) _ bcs h2 in
    let (same, new, checked) = check_battery-IsChecked names (battery_config unset b) bc h1 in
    let (all, fresh) = load_batteries-IsChecked unset (sstr b.title ∷ names) bs rest h3 in
    let titled : (battery_config unset b).name ≡ sstr b.title = named_by unset b in
    subst (λ xs. All IsChecked xs × Fresh names xs) (ok_inj h4)
      (subst (λ x. All IsChecked (x ∷ rest) × Fresh names (x ∷ rest)) (sym same)
        ((checked, all), (new, subst (λ n. Fresh (n ∷ names) rest) (sym titled) fresh)))

not-false : (b : Bool) → not b ≡ false → b ≡ true
not-false true e = refl
not-false false e = cc

mirror_found-ok :
    (bc a : BatteryConfig) (found : Option BatteryConfig)
    → mirror_found bc found ≡ ok a
    → (o : BatteryConfig) × (found ≡ some o) × (is_monitored o ≡ true)
unfolding mirror_found
mirror_found-ok bc a none h = cc
mirror_found-ok bc a (some o) h =
    (o, refl, not-false (is_monitored o) (fail_if-ok (not (is_monitored o)) _ _ a h).0)

check_mirror-Mirrors :
    (all : List BatteryConfig) (bc a : BatteryConfig) → check_mirror all bc ≡ ok a → Mirrors all bc
unfolding check_mirror
check_mirror-Mirrors all bc a h reserve = mirror_found-ok bc a (find_battery bc.mirror all) (
    subst (λ m. (if m then ok bc else mirror_found bc (find_battery bc.mirror all)) ≡ ok a) reserve
      h)

check_mirrors-Mirrors :
    (all bcs res : List BatteryConfig) → check_mirrors all bcs ≡ ok res → All (Mirrors all) bcs
unfolding check_mirrors
check_mirrors-Mirrors all [] res h = tt
check_mirrors-Mirrors all (bc ∷ bcs) res h =
    let (b, h1, h2) = and_then-ok (check_mirror all bc) _ res h in
    let (bs, h3, h4) = and_then-ok (check_mirrors all bcs) _ res h2 in
    (check_mirror-Mirrors all bc b h1, check_mirrors-Mirrors all bcs bs h3)

load_document-IsValid :
    (unset : BatteryLink) (http : HttpConfig) (history : HistoryConfig) (d : Document)
    (c : AppConfig)
    → load_document unset http history d ≡ ok c
    → IsValid c
unfolding load_document load_blocks
load_document-IsValid unset http history d c h =
    let (inv, h1, h2) = and_then-ok (require_inverter d.inverter) _ c h in
    let (uart, h3) = fail_if-ok (is_empty (sstr inv.0)) _ _ c h2 in
    let (blocks, h4) = fail_if-ok (no_blocks d.batteries) _ _ c h3 in
    let (bcs, h5, h6) = and_then-ok (load_batteries unset [] d.batteries) _ c h4 in
    let (checked, h7, h8) = and_then-ok (check_mirrors bcs bcs) _ c h6 in
    let (each, fresh) = load_batteries-IsChecked unset [] d.batteries bcs h5 in
    let mirrors = check_mirrors-Mirrors bcs bcs checked h7 in
    let valid : IsValid (app_config http history d inv bcs) = record {
      uart = uart;
      checked = each;
      distinct = fresh;
      mirrors = mirrors;
    } in
    subst IsValid (ok_inj h8) valid

-- A configuration that loads names a serial device for the inverter; every battery has a name of its
-- own and an address, a monitored one a protocol, and a reserve a positive capacity and a mirror,
-- the first battery of that name, which is monitored. This holds whatever an unset link reads as.
pub load_config-IsValid :
    (unset : BatteryLink) (http : HttpConfig) (history : HistoryConfig) (p : Parse) (c : AppConfig)
    → load_config unset http history p ≡ ok c
    → IsValid c
unfolding load_config
load_config-IsValid unset http history file_error c h = cc
load_config-IsValid unset http history parse_error c h = cc
load_config-IsValid unset http history (parsed d) c h =
    load_document-IsValid unset http history d c h
