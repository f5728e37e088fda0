-- ===== src/Ble/Client/System.antt =====
-- The Bluetooth clients of the process, which share the scan coordinator.
--
-- A handler of a client's thread takes several steps: what it does up to its call of the coordinator
-- or to its connect; the call, which the coordinator's mutex makes one step; and what it does behind
-- it. The callback that a call yields runs behind the unlock, so it signals the slot event of its
-- client in a step of its own.
use bms_bridge.Base.{
  ℕ, ◌≡◌, List, [], ◌∷◌, ◌++◌, Option, none, some, Bool, true, ◌==◌, if◌then◌else◌, Bytes,
}
use bms_bridge.Ble.ScanCoordinator.{Coordinator, idle, request, release}
use bms_bridge.Ble.Client.{
  wait_adapter, Device, Settings, Radio, BleClient, SlotCall, no_call, request_slot, release_slot,
  nothing, Turn, new_client, Handler, at_slot, begin, resume, enter_wait_adapter, send,
  on_scan_found, on_link_lost, on_notify,
}

-- A client is its owner's number, and has its state, the call of the coordinator that its handler is
-- about to make, and what the handler does then; `grants` are the callbacks that have not signalled
-- yet.
pub record System : Type 0 where
  pub clients : ℕ → Turn
  pub coordinator : Coordinator ℕ
  pub grants : List ℕ

abbrev pub new_system : System
new_system = record {
  clients = λ i. (new_client, no_call, nothing);
  coordinator = idle;
  grants = [];
}

abbrev pub put : ℕ → Turn → (ℕ → Turn) → ℕ → Turn
put i c clients j = if i == j then c else clients j

-- The request that enter() makes of the coordinator, or release_slot().
abbrev pub slot_call : ℕ → SlotCall → Coordinator ℕ → Coordinator ℕ × Option ℕ
slot_call i no_call k = (k, none)
slot_call i request_slot k = request i i k
slot_call i release_slot k = release i k

abbrev pub add_grant : Option ℕ → List ℕ → List ℕ
add_grant none gs = gs
add_grant (some g) gs = g ∷ gs

-- A step of a client by itself.
abbrev pub act : ℕ → Turn → System → System
act i t s = record s { clients = put i t s.clients }

-- The call that a handler has come to.
unfoldable pub call_slot : ℕ → System → System
call_slot i s =
    let (c, call, rest) = s.clients i in
    let (k, granted) = slot_call i call s.coordinator in
    record {
      clients = put i (c, no_call, rest) s.clients;
      coordinator = k;
      grants = add_grant granted s.grants;
    }

-- A callback of the coordinator signals the slot event.
abbrev pub signal_slot : BleClient → BleClient
signal_slot c = record c { slot_event = true }

-- Only the client is changed, by another thread.
abbrev pub change : (BleClient → BleClient) → Turn → Turn
change f (c, call, rest) = (f c, call, rest)

-- What other threads do to a client, beside the grants.
pub data Callback : Type 0 where
  found : Device → Callback
  lost : Callback
  notified : Bytes → Callback
  sent : Bool → Callback

unfoldable pub call_back : Settings → Callback → BleClient → BleClient
unfolding on_scan_found on_link_lost on_notify send
call_back cfg (found p) c = on_scan_found cfg p c
call_back cfg lost c = on_link_lost c
call_back cfg (notified payload) c = on_notify payload c
call_back cfg (sent writes) c = (send writes c).0

-- Between two handlers.
abbrev pub AtRest : Turn → Type 0
AtRest (c, call, rest) = (call ≡ no_call) × (rest ≡ nothing)

-- Every interleaving of the clients' threads and callbacks. The slot event is read only when it is
-- readable.
pub data ReachableSystem (cfg : ℕ → Settings) : System → Type 0 where
  start : ReachableSystem cfg new_system
  launches :
      (i : ℕ) (r : Radio) {s : System}
      → AtRest (s.clients i)
      → (s.clients i).0.state ≡ wait_adapter
      → ReachableSystem cfg s
      → ReachableSystem cfg (act i (enter_wait_adapter (cfg i) r (s.clients i).0) s)
  begins :
      (i : ℕ) (h : Handler) (r : Radio) {s : System}
      → AtRest (s.clients i)
      → (h ≡ at_slot → (s.clients i).0.slot_event ≡ true)
      → ReachableSystem cfg s
      → ReachableSystem cfg (act i (begin (cfg i) h r (s.clients i).0) s)
  calls : (i : ℕ) {s : System} → ReachableSystem cfg s → ReachableSystem cfg (call_slot i s)
  resumes :
      (i : ℕ) (r : Radio) {s : System}
      → (s.clients i).1 ≡ no_call
      → ReachableSystem cfg s
      → ReachableSystem cfg (act i (resume (cfg i) r (s.clients i).2 (s.clients i).0) s)
  calls_back :
      (i : ℕ) (b : Callback) {s : System}
      → ReachableSystem cfg s
      → ReachableSystem cfg (act i (change (call_back (cfg i) b) (s.clients i)) s)
  signals :
      (i : ℕ) (before after : List ℕ) {s : System}
      → s.grants ≡ before ++ i ∷ after
      → ReachableSystem cfg s
      → ReachableSystem cfg (record s {
        clients = put i (change signal_slot (s.clients i)) s.clients;
        grants = before ++ after;
      })
