-- ===== src/Inverter.antt =====
-- The Pylontech slave that answers the inverter's polls: src/inverter.cpp.
--
-- A `Battery*` is its index in the list of batteries, which never changes. What the transport is
-- given to send is a list, in order.
pub mod Addresses
pub mod Requests
pub mod Answering
pub mod Reserve
pub mod Mirrors
use bms_bridge.Base.{
  same_name, ℕ, zero, suc, ◌+◌, ◌-◌, ◌*◌, ◌/◌, ◌≤◌, List, [], ◌∷◌, ◌++◌, Option, none, some, ◌>>=◌,
  Bool, true, false, not, ltb, leb, ◌==◌, ◌&&◌, ◌||◌, if◌then◌else◌, length, get_elem?, replicate,
  Bytes, u32, u32_of, ℤ, pos, div_ℤ,
}
use bms_bridge.Jk.Types.{JkCellInfo, JkPackInfo, JkSettings}
use bms_bridge.Battery.State.{SharedState, is_fresh, snapshot, has_value}
use bms_bridge.Pylontech.Frame.{PylontechFrame}
use bms_bridge.Pylontech.Responder.{
  module_count_for_capacity, build_analog_response, build_alarm_response,
  build_system_param_response, build_chgmgmt_response,
}
use bms_bridge.Pylontech.Stream.{receive}

abbrev pub rx_buf_limit : ℕ
rx_buf_limit = 4096

abbrev pub reserve_c_rate_tenths : ℕ
reserve_c_rate_tenths = 5

abbrev pub base_address : ℕ
base_address = 2

-- What the inverter reads of a Battery and its configuration. Names are byte strings.
pub record Battery : Type 0 where
  pub name : Bytes
  pub monitored : Bool
  pub mirror : Bytes
  pub capacity : ℤ
  pub state : SharedState

pub record Slot : Type 0 where
  pub battery : ℕ
  pub mirror : Option ℕ
  pub module_count : ℕ

-- std::find_if: the index of the first battery with the name, counted from `i`.
unfoldable pub find_named : Bytes → ℕ → List Battery → Option ℕ
find_named want i [] = none
find_named want i (o ∷ os) =
    let rest = find_named want (i + 1) os in if same_name o.name want then some i else rest

-- static_cast<uint32_t>(capacity) * 1000
unfoldable pub capacity_mah : Battery → ℕ
capacity_mah b = u32 (u32_of b.capacity * 1000)

unfoldable pub mirror_of : List Battery → Battery → Option ℕ
mirror_of batteries b = if not b.monitored then find_named b.mirror 0 batteries else none

-- The round for battery `i`.
unfoldable pub slot_of : List Battery → ℕ → Battery → Slot
slot_of batteries i b = record {
  battery = i;
  mirror = mirror_of batteries b;
  module_count = module_count_for_capacity (capacity_mah b);
}

unfoldable pub add_slots : List Battery → ℕ → List Battery → List Slot
add_slots batteries i [] = []
add_slots batteries i (b ∷ bs) =
    replicate (slot_of batteries i b).module_count (slot_of batteries i b)
    ++ add_slots batteries (i + 1) bs

unfoldable pub build_address_map : List Battery → List Slot
build_address_map batteries = add_slots batteries 0 batteries

-- The reserve's own capacity, at the mirrored state of charge, with no current.
unfoldable pub reserve_pack : Battery → JkPackInfo → JkPackInfo
reserve_pack owner pack =
    let cap_mah = capacity_mah owner in
    record pack {
      total_capacity_mah = cap_mah;
      remaining_capacity_mah = u32 (cap_mah * pack.state_of_charge_pct) / 100;
      current_ma = pos 0;
    }

unfoldable pub reserve_limits : Battery → JkSettings → JkSettings
reserve_limits owner lim =
    let ilim_ma = u32 (capacity_mah owner * reserve_c_rate_tenths) / 10 in
    record lim { max_charge_current_ma = ilim_ma; max_discharge_current_ma = ilim_ma }

-- The slice of one module.
unfoldable pub module_pack : ℕ → JkPackInfo → JkPackInfo
module_pack module_count pack = record pack {
  current_ma = div_ℤ pack.current_ma module_count;
  remaining_capacity_mah = pack.remaining_capacity_mah / module_count;
  total_capacity_mah = pack.total_capacity_mah / module_count;
}

unfoldable pub module_limits : ℕ → JkSettings → JkSettings
module_limits module_count lim = record lim {
  max_charge_current_ma = lim.max_charge_current_ma / module_count;
  max_discharge_current_ma = lim.max_discharge_current_ma / module_count;
}

-- The switch on CID2; none where the code only warns.
unfoldable pub response_to : PylontechFrame → JkCellInfo → JkPackInfo → JkSettings → Option Bytes
response_to f cells pack lim =
    if f.cid2 == 0x42
    then some (build_analog_response f cells pack)
    else if f.cid2 == 0x44
    then some (build_alarm_response f cells)
    else if f.cid2 == 0x47
    then some (build_system_param_response f lim)
    else if f.cid2 == 0x92
    then some (build_chgmgmt_response f pack lim)
    else none

-- The telemetry of a slot, as the inverter is to see it: of its own battery, or of the one it
-- mirrors with the reserve's figures put in.
unfoldable pub slot_response :
    PylontechFrame → Battery → Bool → ℕ → JkCellInfo → JkPackInfo → JkSettings → Option Bytes
slot_response f owner is_reserve module_count cells pack lim =
    let pack = if is_reserve then reserve_pack owner pack else pack in
    let lim = if is_reserve then reserve_limits owner lim else lim in
    response_to f cells (module_pack module_count pack) (module_limits module_count lim)

-- The snapshot of the source battery, if it is live and complete.
unfoldable pub live : (now : ℕ) → SharedState → Option (JkCellInfo × JkPackInfo × JkSettings)
live now state = (snapshot state).cells >>= λ cells. (snapshot state).pack >>= λ pack.
    (snapshot state).settings >>= λ lim.
    if is_fresh now 5000 state then some (cells, pack, lim) else none

-- The response of a slot whose battery and source are these; none where the code stays silent.
unfoldable pub answer_from :
    (now : ℕ) → Slot → (owner source : Battery) → PylontechFrame → Option Bytes
answer_from now slot owner source f = live now source.state >>= λ t.
    slot_response f owner (has_value slot.mirror) slot.module_count t.0 t.1 t.2

-- The slot's pointers are indices of the list, so both look-ups succeed (build_address_map).
unfoldable pub answer : (now : ℕ) → List Battery → List Slot → PylontechFrame → Option Bytes
answer now batteries slots f =
    if ltb f.adr base_address || leb (length slots) (f.adr - base_address)
    then none
    else get_elem? slots (f.adr - base_address) >>= λ slot.
        get_elem? batteries slot.battery >>= λ owner.
        get_elem? batteries (elim slot.mirror [ none ↦ slot.battery | some i ↦ i ]) >>= λ source.
        answer_from now slot owner source f

-- The loop's body behind the erasure of a frame; the state is what has been sent.
unfoldable pub handle_request :
    (now : ℕ) → List Battery → List Slot → List Bytes → PylontechFrame → List Bytes
handle_request now batteries slots sent f = elim (answer now batteries slots f) [
  | none ↦ sent
  | some resp ↦ sent ++ resp ∷ []
]

pub record Inverter : Type 0 where
  pub batteries : List Battery
  pub slots : List Slot
  pub rx_buf : Bytes

unfoldable pub new_inverter : List Battery → Inverter
new_inverter batteries = record {
  batteries = batteries;
  slots = build_address_map batteries;
  rx_buf = [];
}

-- What is sent while the buffer is processed, and the buffer behind it. The clock is read as `now`
-- for every request of one call.
unfoldable pub process_buffer : (now : ℕ) → Inverter → Inverter × List Bytes
process_buffer now inv =
    let (sent, rx_buf) = receive (handle_request now inv.batteries inv.slots) [] inv.rx_buf in
    (record inv { rx_buf = rx_buf }, sent)

unfoldable pub on_bytes : (now : ℕ) → Inverter → Bytes → Inverter × List Bytes
on_bytes now inv bytes =
    let kept = if ltb rx_buf_limit (length inv.rx_buf + length bytes) then [] else inv.rx_buf in
    process_buffer now (record inv { rx_buf = kept ++ bytes })
