-- ===== src/Tests/Radio.antt =====
-- Bluetooth clients: one that scans and connects, and two that want the scan slot.
use bms_bridge.Base.{
  pos, inl, ◌+◌, ℕ, ◌≡◌, ◌⊎◌, ◌≢◌, refl, sym, subst, [], ◌∷◌, none, some, true, false,
}
use bms_bridge.Ble.ScanCoordinator.{request, enqueue, queued}
use bms_bridge.Ble.Client.{
  wait_slot, online, stopping, Device, Settings, Radio, BleClient, new_client, send, at_work,
  at_slot, begin, enter_wait_adapter, enter_wait_slot, enter_scan, probe_adapter, start_scan,
  on_slot_event, request_slot, stops, handle, launch, enter_connect, on_scan_found, ids_match,
}
use bms_bridge.Ble.Client.Lifecycle.{
  ReachableClient, launched, handles, finds, Awake, Tells, reachable-Awake, reachable-Tells,
  drop_unnoticed, is_online,
}
use bms_bridge.Ble.EventQueue.{link_up}
use bms_bridge.Battery.Handler.{BatteryProtocol, settings_tick, new_handler, run}
use bms_bridge.Battery.Delivery.{
  Dispatched, all_delivered, delivers, refreshes, sink_call, run-is_online,
}
use bms_bridge.Ble.Client.System.{
  System, ReachableSystem, start, launches, begins, calls, signals, act, call_slot, change,
  new_system, put, signal_slot,
}
use bms_bridge.Ble.Client.Places.{readable, granted}
use bms_bridge.Ble.Client.Exclusive.{Busy, WaitsBehind, one_scans, waiting-HasTurn}

abbrev battery : Device
battery = record { identifier = 74 ∷ 75 ∷ []; address = 67 ∷ 56 ∷ [] }

abbrev settings : Settings
settings = record {
  device_uuid = 99 ∷ 56 ∷ [];
  scan_timeout_ms = pos 10000;
  adapter_poll_ms = pos 2000;
  reconnect_backoff_ms = pos 5000;
}

abbrev radio : Radio
radio = record {
  bluetooth_enabled = some true;
  get_adapters = some (battery ∷ []);
  scan_starts = true;
  connects = true;
  is_connected = true;
  notifies = true;
  drops = false;
}

abbrev scanning : BleClient
scanning = (handle settings at_slot radio (launch settings radio new_client).0).0

-- The address matches in lower case.
abbrev connected : BleClient
connected = (handle settings at_work radio (on_scan_found settings battery scanning)).0

connected_online : connected.state ≡ online
unfolding handle launch on_scan_found ids_match
connected_online = refl

connected-Reachable : ReachableClient settings connected
connected-Reachable = handles at_work radio (finds battery (handles at_slot radio (launched radio)))

reachable-Awake_example : Awake settings connected
reachable-Awake_example = reachable-Awake connected connected-Reachable

reachable-Tells_example : Tells connected
reachable-Tells_example = reachable-Tells connected connected-Reachable

abbrev dropping : Radio
dropping = record radio { drops = true }

drop_unnoticed_example :
    let d = (enter_connect settings dropping (record scanning { peripheral = some battery })).0 in
    (d.state ≡ online)
    × (d.linked ≡ false)
    × (d.work_event ≡ false)
    × (d.timer ≡ none)
    × (send true d ≡ (d, false))
drop_unnoticed_example =
    drop_unnoticed settings dropping (record scanning { peripheral = some battery }) battery refl
      refl refl refl true

-- Client 0 is granted the slot, client 1 waits for it, and client 0 scans.
abbrev first : System
first = call_slot 0 (act 0 (enter_wait_adapter settings radio new_client) new_system)

abbrev second : System
second = call_slot 1 (act 1 (enter_wait_adapter settings radio (first.clients 1).0) first)

abbrev third : System
third = record second {
  clients = put 0 (change signal_slot (second.clients 0)) second.clients;
  grants = [];
}

abbrev fourth : System
fourth = act 0 (begin settings at_slot radio (third.clients 0).0) third

one_grant : second.grants ≡ 0 ∷ []
unfolding call_slot request enter_wait_adapter enter_wait_slot probe_adapter enqueue queued
one_grant = refl

second-Reachable : ReachableSystem (λ i. settings) second
unfolding call_slot request enter_wait_adapter enter_wait_slot probe_adapter enqueue queued
second-Reachable =
    calls 1
      (launches 1 radio (refl, refl) refl (calls 0 (launches 0 radio (refl, refl) refl start)))

fourth-Reachable : ReachableSystem (λ i. settings) fourth
unfolding call_slot request enter_wait_adapter enter_wait_slot probe_adapter enqueue queued
fourth-Reachable =
    begins 0 at_slot radio (refl, refl) (λ e. refl) (signals 0 [] [] one_grant second-Reachable)

first_scans : Busy (fourth.clients 0)
unfolding call_slot request enter_wait_adapter enter_wait_slot probe_adapter enqueue queued begin
    on_slot_event enter_scan start_scan
first_scans = (inl refl, (λ e. cc))

second_waits :
    ((fourth.clients 1).0.state ≡ wait_slot)
    × ((fourth.clients 1).1 ≢ request_slot)
    × ((fourth.clients 1).2 ≢ stops)
unfolding call_slot request enter_wait_adapter enter_wait_slot probe_adapter enqueue queued
second_waits = (refl, (λ e. cc), (λ e. cc))

one_scans_example : ◌≡◌ {A = ℕ} 0 0
one_scans_example = one_scans fourth fourth-Reachable 0 0 first_scans first_scans

waiting-HasTurn_example :
    ((fourth.coordinator.holder ≡ some 1)
      × (readable (fourth.clients 1).0.slot_event + granted 1 fourth.grants ≡ 1))
    ⊎ ((h : ℕ) × WaitsBehind fourth 1 h)
waiting-HasTurn_example =
    waiting-HasTurn fourth fourth-Reachable 1 second_waits.0 second_waits.1 second_waits.2

-- A handler of a protocol that takes nothing.
abbrev mute : BatteryProtocol Unit
mute = record {
  reset = λ p. p;
  poll_request = λ p. [];
  settings_request = λ p. [];
  feed = λ p chunk. (p, record { telemetry = none; settings = none });
}

connected_pushed : connected.pushed ≡ link_up ∷ []
unfolding handle launch on_scan_found ids_match
connected_pushed = refl

calls-Dispatched : Dispatched connected.pushed (settings_tick ∷ sink_call 30 link_up ∷ [])
calls-Dispatched =
    subst (λ evs. Dispatched evs (settings_tick ∷ sink_call 30 link_up ∷ [])) (sym connected_pushed)
      (refreshes (delivers 30 link_up all_delivered))

not_stopped : connected.state ≢ stopping
not_stopped e = cc (connected_online, e)

run-is_online_example :
    (run mute (settings_tick ∷ sink_call 30 link_up ∷ []) (new_handler tt 5000 500)).state.connected
    ≡ is_online connected.state
run-is_online_example =
    run-is_online mute connected (settings_tick ∷ sink_call 30 link_up ∷ [])
      (new_handler tt 5000 500) connected-Reachable not_stopped calls-Dispatched refl
