-- ===== src/Ble/Client.antt =====
-- BleClient of src/ble_client.cpp: the connection of one Bluetooth battery as a state machine.
--
-- SimpleBLE is a parameter: `Radio` has the outcome of each call that one handler can make, where
-- an exception is none or false. An eventfd is a Boolean that says whether it is readable; the
-- timer is its delay while it is armed or its expiry is not read. The call that a handler makes of
-- the scan coordinator is returned, since it makes one at most, with what it does behind that.
pub mod Lifecycle
pub mod System
pub mod Places
pub mod Grants
pub mod Shared
pub mod Exclusive
use bms_bridge.Base.{
  ℕ, ◌+◌, List, [], ◌∷◌, ◌++◌, map, Option, none, some, Bool, true, false, ◌||◌, ◌&&◌, not, ltb,
  leb, if◌then◌else◌, Bytes, same_name, ℤ,
}
use bms_bridge.Timer.{rearm}
use bms_bridge.Ble.EventQueue.{BmsEvent, link_up, link_down, notify_frame}

pub data State : Type 0 where
  wait_adapter : State
  wait_slot : State
  scan : State
  connect : State
  online : State
  backoff : State
  stopping : State

-- An adapter or a peripheral, by the names that it reports.
pub record Device : Type 0 where
  pub identifier : Bytes
  pub address : Bytes

pub record Settings : Type 0 where
  pub device_uuid : Bytes
  pub scan_timeout_ms : ℤ
  pub adapter_poll_ms : ℤ
  pub reconnect_backoff_ms : ℤ

-- `drops` says that the link is lost, and the callback for it has run, between the subscription to
-- the notifications and the end of the handler.
pub record Radio : Type 0 where
  pub bluetooth_enabled : Option Bool
  pub get_adapters : Option (List Device)
  pub scan_starts : Bool
  pub connects : Bool
  pub is_connected : Bool
  pub notifies : Bool
  pub drops : Bool

-- `linked` is what the peripheral's is_connected() says, and `scanning` says that the adapter has
-- been told to scan and not to stop.
pub record BleClient : Type 0 where
  pub state : State
  pub adapter : Option Device
  pub peripheral : Option Device
  pub scan_match : Option Device
  pub linked : Bool
  pub scanning : Bool
  pub adapter_warned : Bool
  pub timer : Option ℕ
  pub work_event : Bool
  pub slot_event : Bool
  pub pushed : List BmsEvent

pub data SlotCall : Type 0 where
  no_call : SlotCall
  request_slot : SlotCall
  release_slot : SlotCall

-- What a handler does behind its call of the coordinator: nothing; connect_to_peripheral(), where
-- it made no call; the backoff's timer; the work event's consume(); the state that ends the loop.
pub data Rest : Type 0 where
  nothing : Rest
  connects : Rest
  arms_backoff : Rest
  consumes_work : Rest
  stops : Rest

-- A handler up to its call of the coordinator, the call, and the rest.
abbrev pub Turn : Type 0
Turn = BleClient × SlotCall × Rest

abbrev pub new_client : BleClient
new_client = record {
  state = wait_adapter;
  adapter = none;
  peripheral = none;
  scan_match = none;
  linked = false;
  scanning = false;
  adapter_warned = false;
  timer = none;
  work_event = false;
  slot_event = false;
  pushed = [];
}

-- std::tolower in the C locale.
abbrev pub to_lower_byte : ℕ → ℕ
to_lower_byte c = if leb 65 c && leb c 90 then c + 32 else c

abbrev pub to_lower : Bytes → Bytes
to_lower s = map to_lower_byte s

unfoldable pub ids_match : Bytes → Bytes → Bool
ids_match a b = same_name (to_lower a) (to_lower b)

-- send(), by the outcome of write_command.
unfoldable pub send : Bool → BleClient → BleClient × Bool
send writes c = elim c.peripheral [
  | none ↦ (c, false)
  | some p ↦
      if c.linked
      then (if writes then (c, true) else (record c { work_event = true }, false))
      else (c, false)
]

-- The adapter that the two calls of probe_adapter() yield.
abbrev pub first_adapter : Option Bool → Option (List Device) → Option Device
first_adapter (some true) (some (a ∷ rest)) = some a
first_adapter (some true) (some []) = none
first_adapter (some true) none = none
first_adapter (some false) found = none
first_adapter none found = none

unfoldable pub probe_adapter : Radio → BleClient → BleClient × Bool
probe_adapter r c = elim (first_adapter r.bluetooth_enabled r.get_adapters) [
  | none ↦ (c, false)
  | some a ↦ (record c { adapter = some a }, true)
]

unfoldable pub start_scan : Radio → BleClient → BleClient × Bool
start_scan r c = elim c.adapter [
  | none ↦ (c, false)
  | some a ↦
      if r.scan_starts
      then (record c { scan_match = none; scanning = true }, true)
      else (record c { scan_match = none; adapter = none }, false)
]

unfoldable pub stop_scan : BleClient → BleClient
stop_scan c = elim c.adapter [ none ↦ c | some a ↦ record c { scanning = false } ]

-- What connect() and is_connected() leave.
abbrev pub link_made : Radio → Bool
link_made r = r.connects && r.is_connected

unfoldable pub connect_to_peripheral : Radio → BleClient → BleClient × Bool
connect_to_peripheral r c = elim c.peripheral [
  | none ↦ (c, false)
  | some p ↦
      if link_made r && r.notifies
      then (
        record c {
          linked = not r.drops;
          work_event = c.work_event || r.drops;
          pushed = c.pushed ++ link_up ∷ [];
        },
        true,
      )
      else (record c { peripheral = none; linked = false }, false)
]

unfoldable pub teardown_peripheral : BleClient → BleClient
teardown_peripheral c = elim c.peripheral [
  | none ↦ c
  | some p ↦ record c { peripheral = none; linked = false }
]

-- enter(), one function for each state that it installs.
unfoldable pub enter_wait_slot : BleClient → Turn
enter_wait_slot c = (record c { state = wait_slot }, request_slot, nothing)

unfoldable pub enter_backoff : BleClient → Turn
enter_backoff c = (record c { state = backoff }, release_slot, arms_backoff)

unfoldable pub enter_online : BleClient → Turn
enter_online c = (record c { state = online }, release_slot, consumes_work)

unfoldable pub enter_wait_adapter : Settings → Radio → BleClient → Turn
unfolding probe_adapter enter_wait_slot
enter_wait_adapter cfg r c =
    let (d, ready) = probe_adapter r (record c { state = wait_adapter }) in
    if ready then enter_wait_slot (record d { adapter_warned = false }) else (
      record d { adapter_warned = true; timer = rearm cfg.adapter_poll_ms d.timer },
      no_call,
      nothing,
    )

unfoldable pub enter_scan : Settings → Radio → BleClient → Turn
unfolding start_scan enter_backoff
enter_scan cfg r c =
    let (d, started) = start_scan r (record c { state = scan; work_event = false }) in
    if started
    then (record d { timer = rearm cfg.scan_timeout_ms d.timer }, no_call, nothing)
    else enter_backoff d

unfoldable pub begin_connect : BleClient → Turn
begin_connect c = (record c { state = connect; timer = none }, no_call, connects)

unfoldable pub end_connect : Radio → BleClient → Turn
unfolding connect_to_peripheral enter_online enter_backoff
end_connect r c =
    let (d, connected) = connect_to_peripheral r c in
    if connected then enter_online d else enter_backoff d

-- What stands behind a call of the coordinator, and a call that this makes in turn.
unfoldable pub resume : Settings → Radio → Rest → BleClient → Turn
unfolding end_connect
resume cfg r nothing c = (c, no_call, nothing)
resume cfg r connects c = end_connect r c
resume cfg r arms_backoff c =
    (record c { timer = rearm cfg.reconnect_backoff_ms c.timer }, no_call, nothing)
resume cfg r consumes_work c = (record c { work_event = false }, no_call, nothing)
resume cfg r stops c = (record c { state = stopping }, no_call, nothing)

-- A handler to its end, with the one call that it makes.
unfoldable pub settle : Settings → Radio → Turn → BleClient × SlotCall
unfolding resume end_connect
settle cfg r (c, call, nothing) = (c, call)
settle cfg r (c, call, connects) =
    let (d, later, rest) = end_connect r c in ((resume cfg r rest d).0, later)
settle cfg r (c, call, arms_backoff) = ((resume cfg r arms_backoff c).0, call)
settle cfg r (c, call, consumes_work) = ((resume cfg r consumes_work c).0, call)
settle cfg r (c, call, stops) = ((resume cfg r stops c).0, call)

unfoldable pub enter_connect : Settings → Radio → BleClient → BleClient × SlotCall
unfolding begin_connect settle
enter_connect cfg r c = settle cfg r (begin_connect c)

-- The handlers of the four file descriptors, each behind its consume().
unfoldable pub on_slot_event : Settings → Radio → BleClient → Turn
unfolding enter_scan
on_slot_event cfg r c =
    let d = record c { slot_event = false } in
    elim c.state [ wait_slot ↦ enter_scan cfg r d | other ↦ (d, no_call, nothing) ]

unfoldable pub on_stop_event : BleClient → Turn
unfolding teardown_peripheral
on_stop_event c = (teardown_peripheral c, release_slot, stops)

-- In the scan state: with a match, the scan ends and its peripheral is connected.
unfoldable pub on_match : BleClient → Turn
unfolding stop_scan begin_connect
on_match c = elim c.scan_match [
  | none ↦ (c, no_call, nothing)
  | some found ↦ begin_connect (record (stop_scan (record c { scan_match = none; timer = none })) {
    peripheral = some found;
  })
]

unfoldable pub on_work_event : BleClient → Turn
unfolding on_match teardown_peripheral enter_backoff
on_work_event c =
    let d = record c { work_event = false } in
    elim c.state [
      | scan ↦ on_match d
      | online ↦
          enter_backoff (teardown_peripheral (record d { pushed = c.pushed ++ link_down ∷ [] }))
      | other ↦ (d, no_call, nothing)
    ]

unfoldable pub on_timer_expired : Settings → Radio → BleClient → Turn
unfolding enter_wait_adapter enter_wait_slot enter_backoff stop_scan
on_timer_expired cfg r c =
    let d = record c { timer = none } in
    elim c.state [
      | wait_adapter ↦ enter_wait_adapter cfg r d
      | scan ↦ enter_backoff (stop_scan d)
      | backoff ↦ elim d.adapter [ none ↦ enter_wait_adapter cfg r d | some a ↦ enter_wait_slot d ]
      | other ↦ (d, no_call, nothing)
    ]

-- The callbacks that SimpleBLE runs on its own thread: a device that the scan has found, the loss of
-- the link, a notification.
unfoldable pub on_scan_found : Settings → Device → BleClient → BleClient
on_scan_found cfg p c = elim c.scan_match [
  | none ↦
      if ids_match p.address cfg.device_uuid || ids_match p.identifier cfg.device_uuid
      then record c { scan_match = some p; work_event = true }
      else c
  | some found ↦ c
]

unfoldable pub on_link_lost : BleClient → BleClient
on_link_lost c = record c { linked = false; work_event = true }

unfoldable pub on_notify : Bytes → BleClient → BleClient
on_notify payload c = record c { pushed = c.pushed ++ notify_frame payload ∷ [] }

pub data Handler : Type 0 where
  at_stop : Handler
  at_work : Handler
  at_slot : Handler
  at_timer : Handler

abbrev dispatch : Settings → Handler → Radio → BleClient → Turn
dispatch cfg at_stop r c = on_stop_event c
dispatch cfg at_work r c = on_work_event c
dispatch cfg at_slot r c = on_slot_event cfg r c
dispatch cfg at_timer r c = on_timer_expired cfg r c

abbrev pub is_stopping : State → Bool
is_stopping stopping = true
is_stopping s = false

-- One event of run()'s loop, up to the handler's call of the coordinator or its connect.
unfoldable pub begin : Settings → Handler → Radio → BleClient → Turn
unfolding on_stop_event on_work_event on_slot_event on_timer_expired
begin cfg h r c = if is_stopping c.state then (c, no_call, nothing) else dispatch cfg h r c

-- The whole of it.
unfoldable pub handle : Settings → Handler → Radio → BleClient → BleClient × SlotCall
unfolding begin settle
handle cfg h r c = settle cfg r (begin cfg h r c)

-- The state with which run() enters its loop.
unfoldable pub launch : Settings → Radio → BleClient → BleClient × SlotCall
unfolding enter_wait_adapter settle
launch cfg r c = settle cfg r (enter_wait_adapter cfg r c)
