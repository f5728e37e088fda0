-- ===== src/Ble/Client/Places.antt =====
-- What each state of a client has of the scan slot, and what its handlers do to that.
use bms_bridge.Base.{
  ℕ, suc, ◌+◌, ◌≤◌, ◌≡◌, ◌≢◌, ◌⊎◌, List, [], ◌∷◌, Bool, true, false, if◌then◌else◌, ◌==◌, arith,
}
use bms_bridge.Ble.ScanCoordinator.{Waiter}
use bms_bridge.Ble.Client.{
  State, wait_adapter, wait_slot, scan, connect, online, backoff, stopping, Settings, Radio,
  BleClient, SlotCall, no_call, request_slot, release_slot, Rest, nothing, connects, arms_backoff,
  consumes_work, stops, Turn, send, Handler, at_slot, begin, resume, begin_connect, end_connect,
  on_scan_found, on_link_lost, on_notify, probe_adapter, start_scan, stop_scan,
  connect_to_peripheral, teardown_peripheral, enter_wait_slot, enter_backoff, enter_online,
  enter_wait_adapter, enter_scan, on_slot_event, on_stop_event, on_match, on_work_event,
  on_timer_expired,
}
use bms_bridge.Ble.Client.System.{signal_slot, Callback, call_back, change}

pub differ : (a b : ℕ) → (a == b) ≡ false → a ≢ b
differ a b e = ground arith

-- How often an owner waits, and how often it is granted.
abbrev pub waiting : ℕ → List (Waiter ℕ) → ℕ
waiting i [] = 0
waiting i (w ∷ ws) = (if w.owner == i then 1 else 0) + waiting i ws

abbrev pub granted : ℕ → List ℕ → ℕ
granted i [] = 0
granted i (g ∷ gs) = (if g == i then 1 else 0) + granted i gs

abbrev pub readable : Bool → ℕ
readable e = if e then 1 else 0

-- What a client in each state has of the slot: it holds it, it waits for it so often, and so many
-- signals of it are on the way or not read. A client in the connect state has not come to rest.
abbrev pub Fits : State → Bool → ℕ → ℕ → Type 0
Fits scan h w t = (h ≡ true) × (w ≡ 0) × (t ≡ 0)
Fits connect h w t = ⊥
Fits wait_slot h w t = ((h ≡ true) × (w ≡ 0) × (t ≡ 1)) ⊎ ((h ≡ false) × (w ≡ 1) × (t ≡ 0))
Fits stopping h w t = (h ≡ false) × (w ≡ 0)
Fits wait_adapter h w t = (h ≡ false) × (w ≡ 0) × (t ≡ 0)
Fits online h w t = (h ≡ false) × (w ≡ 0) × (t ≡ 0)
Fits backoff h w t = (h ≡ false) × (w ≡ 0) × (t ≡ 0)

-- The same of a client whose handler may be under way: the state that it installs, with the call that
-- comes next and what comes then.
abbrev pub Place : State → SlotCall → Rest → Bool → ℕ → ℕ → Type 0
Place s no_call nothing h w t = Fits s h w t
Place s no_call connects h w t = (s ≡ connect) × (h ≡ true) × (w ≡ 0) × (t ≡ 0)
Place s no_call arms_backoff h w t = (s ≡ backoff) × (h ≡ false) × (w ≡ 0) × (t ≡ 0)
Place s no_call consumes_work h w t = (s ≡ online) × (h ≡ false) × (w ≡ 0) × (t ≡ 0)
Place s no_call stops h w t = (h ≡ false) × (w ≡ 0)
Place s request_slot nothing h w t = (s ≡ wait_slot) × (h ≡ false) × (w ≡ 0) × (t ≡ 0)
Place s request_slot rest h w t = ⊥
Place s release_slot arms_backoff h w t = (s ≡ backoff) × (w ≡ 0) × (t ≡ 0)
Place s release_slot consumes_work h w t = (s ≡ online) × (w ≡ 0) × (t ≡ 0)
Place s release_slot stops h w t = (h ≡ true → w ≡ 0) × (w ≤ 1)
Place s release_slot rest h w t = ⊥

abbrev pub Placed : Turn → Bool → ℕ → ℕ → Type 0
Placed (c, call, rest) h w t = Place c.state call rest h w (readable c.slot_event + t)

pub begin-Placed :
    (cfg : Settings) (k : Handler) (r : Radio) (c : BleClient) (h : Bool) (w t : ℕ)
    → (k ≡ at_slot → c.slot_event ≡ true)
    → Fits c.state h w (readable c.slot_event + t)
    → Placed (begin cfg k r c) h w t
unfolding begin on_stop_event on_work_event on_slot_event on_timer_expired on_match enter_scan
    begin_connect enter_wait_adapter enter_wait_slot enter_backoff probe_adapter start_scan
    stop_scan teardown_peripheral
begin-Placed cfg k r c h w t e f = ground arith

pub launch-Placed :
    (cfg : Settings) (r : Radio) (c : BleClient) (h : Bool) (w t : ℕ)
    → c.state ≡ wait_adapter
    → Fits c.state h w (readable c.slot_event + t)
    → Placed (enter_wait_adapter cfg r c) h w t
unfolding enter_wait_adapter enter_wait_slot probe_adapter
launch-Placed cfg r c h w t e f = ground arith

pub resume-Placed :
    (cfg : Settings) (r : Radio) (c : BleClient) (rest : Rest) (h : Bool) (w t : ℕ)
    → Placed (c, no_call, rest) h w t
    → Placed (resume cfg r rest c) h w t
unfolding resume end_connect connect_to_peripheral enter_online enter_backoff
resume-Placed cfg r c nothing h w t f = f
resume-Placed cfg r c connects h w t f = ground arith
resume-Placed cfg r c arms_backoff h w t f = ground arith
resume-Placed cfg r c consumes_work h w t f = ground arith
resume-Placed cfg r c stops h w t f = f

call_back-kept :
    (cfg : Settings) (b : Callback) (c : BleClient)
    → ((call_back cfg b c).state ≡ c.state) × ((call_back cfg b c).slot_event ≡ c.slot_event)
unfolding call_back on_scan_found on_link_lost on_notify send
call_back-kept cfg b c = ground arith

pub call_back-Placed :
    (cfg : Settings) (b : Callback) (u : Turn) (h : Bool) (w t : ℕ)
    → Placed u h w t
    → Placed (change (call_back cfg b) u) h w t
call_back-Placed cfg b (c, call, rest) h w t f =
    let (state_eq, event_eq) = call_back-kept cfg b c in rw (state_eq, event_eq) f

signal-Place :
    (s : State) (call : SlotCall) (rest : Rest) (e h : Bool) (w t : ℕ)
    → Place s call rest h w (readable e + (1 + t))
    → Place s call rest h w (1 + t)
signal-Place s call rest e h w t f = ground arith

pub signal-Placed :
    (u : Turn) (h : Bool) (w t : ℕ) → Placed u h w (1 + t) → Placed (change signal_slot u) h w t
signal-Placed (c, call, rest) h w t f = signal-Place c.state call rest c.slot_event h w t f

-- Another client's call leaves what an owner has as it is, or hands it the slot it waits for.
abbrev pub Passed : Bool → ℕ → ℕ → Bool → ℕ → ℕ → Type 0
Passed h w t h' w' t' =
    ((h ≡ h') × (w ≡ w') × (t ≡ t')) ⊎ ((h ≡ false) × (w ≡ suc w') × (h' ≡ true) × (t' ≡ suc t))

Passed-Place :
    (s : State) (call : SlotCall) (rest : Rest) (e h h' : Bool) (w w' t t' : ℕ)
    → Passed h w t h' w' t'
    → Place s call rest h w (readable e + t)
    → Place s call rest h' w' (readable e + t')
Passed-Place s call rest e h h' w w' t t' p f = ground arith

pub Passed-Placed :
    (u : Turn) (h h' : Bool) (w w' t t' : ℕ)
    → Passed h w t h' w' t'
    → Placed u h w t
    → Placed u h' w' t'
Passed-Placed (c, call, rest) h h' w w' t t' p f =
    Passed-Place c.state call rest c.slot_event h h' w w' t t' p f
