-- ===== src/Ble/Client/Lifecycle.antt =====
-- The states that a client can reach, and what holds of each.
use bms_bridge.Timer.{IsDelay}
use bms_bridge.Base.{◌≡◌, ◌≢◌, ◌⊎◌, Option, none, some, Bool, true, false, Bytes, arith}
use bms_bridge.Ble.EventQueue.{link_up, link_down, notify_frame}
use bms_bridge.Ble.EventQueue.Session.{session, session-snoc}
use bms_bridge.Ble.Client.{
  State, wait_adapter, wait_slot, scan, connect, online, backoff, stopping, Device, Settings, Radio,
  BleClient, new_client, send, Handler, handle, launch, on_scan_found, on_link_lost, on_notify,
  link_made, probe_adapter, start_scan, stop_scan, connect_to_peripheral, teardown_peripheral,
  enter_wait_slot, enter_backoff, enter_online, enter_wait_adapter, enter_scan, enter_connect,
  begin, settle, resume, begin_connect, end_connect, on_slot_event, on_stop_event, on_match,
  on_work_event, on_timer_expired,
}

-- Every interleaving of the client's loop with the callbacks of SimpleBLE, the grants of the scan
-- slot and the writes of the dispatcher.
pub data ReachableClient (cfg : Settings) : BleClient → Type 0 where
  launched : (r : Radio) → ReachableClient cfg (launch cfg r new_client).0
  handles :
      (h : Handler) (r : Radio) {c : BleClient}
      → ReachableClient cfg c
      → ReachableClient cfg (handle cfg h r c).0
  finds :
      (p : Device) {c : BleClient}
      → ReachableClient cfg c
      → ReachableClient cfg (on_scan_found cfg p c)
  loses : {c : BleClient} → ReachableClient cfg c → ReachableClient cfg (on_link_lost c)
  notified :
      (payload : Bytes) {c : BleClient}
      → ReachableClient cfg c
      → ReachableClient cfg (on_notify payload c)
  sends :
      (writes : Bool) {c : BleClient}
      → ReachableClient cfg c
      → ReachableClient cfg (send writes c).0
  granted :
      {c : BleClient} → ReachableClient cfg c → ReachableClient cfg (record c { slot_event = true })

-- What lets the client go on: the timer runs, or an event is on its way.
pub record Awake (cfg : Settings) (c : BleClient) : Type 0 where
  pub poll_timed : IsDelay cfg.adapter_poll_ms → c.state ≡ wait_adapter → c.timer ≢ none
  pub scan_timed : IsDelay cfg.scan_timeout_ms → c.state ≡ scan → c.timer ≢ none
  pub backoff_timed : IsDelay cfg.reconnect_backoff_ms → c.state ≡ backoff → c.timer ≢ none
  pub match_signalled : c.state ≡ scan → c.scan_match ≢ none → c.work_event ≡ true
  pub settled : c.state ≢ connect

-- What the client has of the devices.
pub record Holds (c : BleClient) : Type 0 where
  pub slot_adapter : c.state ≡ wait_slot → c.adapter ≢ none
  pub scan_adapter : c.state ≡ scan → c.adapter ≢ none
  pub online_peripheral : c.state ≡ online → c.peripheral ≢ none
  pub only_online : c.peripheral ≢ none → c.state ≡ online
  pub linked_online : c.linked ≡ true → c.state ≡ online
  pub scans : c.state ≡ scan → c.scanning ≡ true
  pub only_scans : c.scanning ≡ true → (c.state ≡ scan) ⊎ (c.state ≡ stopping)

abbrev pub is_online : State → Bool
is_online online = true
is_online s = false

-- The events that the client has pushed, read from a connection that is down.
abbrev pub told_by : BleClient → Option Bool
told_by c = session (some false) c.pushed

pub record Tells (c : BleClient) : Type 0 where
  pub running : c.state ≢ stopping → told_by c ≡ some (is_online c.state)
  pub stopped : c.state ≡ stopping → told_by c ≢ none

pub record Sound (cfg : Settings) (c : BleClient) : Type 0 where
  pub awake : Awake cfg c
  pub holds : Holds c
  pub tells : Tells c

launch-Sound : (cfg : Settings) (r : Radio) → Sound cfg (launch cfg r new_client).0
unfolding launch settle enter_wait_adapter probe_adapter enter_wait_slot session
launch-Sound cfg r = ground arith

module _ (cfg : Settings) (h : Handler) (r : Radio) (c : BleClient) where
  handle-Awake : Awake cfg c → Awake cfg (handle cfg h r c).0
  unfolding handle begin settle resume begin_connect end_connect on_stop_event on_work_event
      on_slot_event on_timer_expired on_match enter_scan enter_wait_adapter enter_wait_slot
      enter_backoff enter_online probe_adapter start_scan stop_scan connect_to_peripheral
      teardown_peripheral
  handle-Awake v = ground arith

  handle-Holds : Holds c → Holds (handle cfg h r c).0
  unfolding handle begin settle resume begin_connect end_connect on_stop_event on_work_event
      on_slot_event on_timer_expired on_match enter_scan enter_wait_adapter enter_wait_slot
      enter_backoff enter_online probe_adapter start_scan stop_scan connect_to_peripheral
      teardown_peripheral
  handle-Holds v = ground arith

  handle-Tells : Awake cfg c → Tells c → Tells (handle cfg h r c).0
  unfolding handle begin settle resume begin_connect end_connect on_stop_event on_work_event
      on_slot_event on_timer_expired on_match enter_scan enter_wait_adapter enter_wait_slot
      enter_backoff enter_online probe_adapter start_scan stop_scan connect_to_peripheral
      teardown_peripheral
  handle-Tells a v = ground (
    arith,
    session-snoc (some false) c.pushed link_up,
    session-snoc (some false) c.pushed link_down,
  )

  handle-Sound : Sound cfg c → Sound cfg (handle cfg h r c).0
  handle-Sound v = record {
    awake = handle-Awake v.awake;
    holds = handle-Holds v.holds;
    tells = handle-Tells v.awake v.tells;
  }

found-Sound :
    (cfg : Settings) (p : Device) (c : BleClient) → Sound cfg c → Sound cfg (on_scan_found cfg p c)
unfolding on_scan_found
found-Sound cfg p c v = ground arith

send-Sound :
    (cfg : Settings) (writes : Bool) (c : BleClient) → Sound cfg c → Sound cfg (send writes c).0
unfolding send
send-Sound cfg writes c v = ground arith

lost-Sound : (cfg : Settings) (c : BleClient) → Sound cfg c → Sound cfg (on_link_lost c)
unfolding on_link_lost
lost-Sound cfg c v = ground arith

notify-Sound :
    (cfg : Settings) (payload : Bytes) (c : BleClient)
    → Sound cfg c
    → Sound cfg (on_notify payload c)
unfolding on_notify
notify-Sound cfg payload c v =
    ground (arith, session-snoc (some false) c.pushed (notify_frame payload))

granted-Sound :
    (cfg : Settings) (c : BleClient) → Sound cfg c → Sound cfg (record c { slot_event = true })
granted-Sound cfg c v = ground arith

pub reachable-Sound : {cfg : Settings} {c : BleClient} → ReachableClient cfg c → Sound cfg c
reachable-Sound {cfg} (launched r) = launch-Sound cfg r
reachable-Sound {cfg} (handles h r {c} v) = handle-Sound cfg h r c (reachable-Sound v)
reachable-Sound {cfg} (finds p {c} v) = found-Sound cfg p c (reachable-Sound v)
reachable-Sound {cfg} (loses {c} v) = lost-Sound cfg c (reachable-Sound v)
reachable-Sound {cfg} (notified payload {c} v) = notify-Sound cfg payload c (reachable-Sound v)
reachable-Sound {cfg} (sends writes {c} v) = send-Sound cfg writes c (reachable-Sound v)
reachable-Sound {cfg} (granted {c} v) = granted-Sound cfg c (reachable-Sound v)

-- In every reachable state: while the client waits for an adapter, scans or backs off, its timer is
-- armed or its expiry is not read, if the delay that this state arms it with is not negative; a match
-- that the scan has found is on its way to the client by the work event; and no handler leaves the
-- client in the connect state.
pub reachable-Awake : {cfg : Settings} (c : BleClient) → ReachableClient cfg c → Awake cfg c
reachable-Awake c v = (reachable-Sound v).awake

-- In every reachable state: a client that waits for the scan slot or scans has an adapter; one that
-- is online has a peripheral, and has none, nor a link, in any other state; it scans in the scan
-- state, and else only when it was stopped.
pub reachable-Holds : {cfg : Settings} (c : BleClient) → ReachableClient cfg c → Holds c
reachable-Holds c v = (reachable-Sound v).holds

-- In every reachable state, the link events that the client has pushed alternate, from a first
-- link_up on, and unless the client is stopped the last is link_up exactly when it is online.
pub reachable-Tells : {cfg : Settings} (c : BleClient) → ReachableClient cfg c → Tells c
reachable-Tells c v = (reachable-Sound v).tells

-- A link that drops between the subscription and the end of the handler, while a peripheral is
-- connected: the client is online with no link, its work event is not readable and its timer not
-- armed, and a send returns false and changes nothing.
pub drop_unnoticed :
    (cfg : Settings) (r : Radio) (c : BleClient) (p : Device)
    → c.peripheral ≡ some p
    → link_made r ≡ true
    → r.notifies ≡ true
    → r.drops ≡ true
    → (writes : Bool)
    → let d = (enter_connect cfg r c).0 in
      (d.state ≡ online)
      × (d.linked ≡ false)
      × (d.work_event ≡ false)
      × (d.timer ≡ none)
      × (send writes d ≡ (d, false))
unfolding enter_connect begin_connect settle resume end_connect connect_to_peripheral enter_online
    enter_backoff send
drop_unnoticed cfg r c p e m n l writes = ground arith
