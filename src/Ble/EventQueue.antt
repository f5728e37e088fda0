-- ===== src/Ble/EventQueue.antt =====
-- The way of BLE events to the dispatcher: BmsEventQueue of src/event_queue.cpp, and the pump of
-- src/ble_transport.cpp that empties it.
--
-- The BLE thread pushes while the dispatcher pumps, so each access that the mutex or the kernel
-- makes atomic is one step. The eventfd is the number that has been written to it since it was last
-- read; it does not overflow.
pub mod Wakeup
pub mod Session
use bms_bridge.Base.{
  ℕ, ◌+◌, ◌-◌, ◌≤◌, ◌≡◌, List, [], ◌∷◌, ◌++◌, Option, none, some, Bool, true, false, Bytes,
}

pub data BmsEvent : Type 0 where
  link_up : BmsEvent
  link_down : BmsEvent
  notify_frame : Bytes → BmsEvent

-- `unsignalled` counts the pushes that stand between the two halves of push(); `pumping` says that
-- pump() is in its loop. `pushed` and `delivered` are the events so far, on either side.
pub record Channel : Type 0 where
  pub queue : List BmsEvent
  pub counter : ℕ
  pub unsignalled : ℕ
  pub pumping : Bool
  pub pushed : List BmsEvent
  pub delivered : List BmsEvent

abbrev pub new_channel : Channel
new_channel = record {
  queue = [];
  counter = 0;
  unsignalled = 0;
  pumping = false;
  pushed = [];
  delivered = [];
}

-- The locked half of push().
unfoldable pub push_back : BmsEvent → Channel → Channel
push_back ev c = record c {
  queue = c.queue ++ ev ∷ [];
  unsignalled = c.unsignalled + 1;
  pushed = c.pushed ++ ev ∷ [];
}

-- The write to the eventfd behind it.
unfoldable pub signal : Channel → Channel
signal c = record c { unsignalled = c.unsignalled - 1; counter = c.counter + 1 }

-- try_pop(): the event, and the queue without it.
unfoldable pub try_pop : List BmsEvent → Option BmsEvent × List BmsEvent
try_pop [] = (none, [])
try_pop (ev ∷ q) = (some ev, q)

-- The start of pump(): drain_notify().
unfoldable pub drain_notify : Channel → Channel
drain_notify c = record c { counter = 0; pumping = true }

-- One test of pump()'s loop, with its body.
unfoldable pub pump_round : Channel → Channel
pump_round c =
    let (popped, q) = try_pop c.queue in
    elim popped [
      | none ↦ record c { queue = q; pumping = false }
      | some ev ↦ record c { queue = q; delivered = c.delivered ++ ev ∷ [] }
    ]

-- Every interleaving of the two threads. The dispatcher calls pump() when the eventfd is readable.
pub data ReachableChannel : Channel → Type 0 where
  start : ReachableChannel new_channel
  pushes : (ev : BmsEvent) {c : Channel} → ReachableChannel c → ReachableChannel (push_back ev c)
  signals : {c : Channel} → 1 ≤ c.unsignalled → ReachableChannel c → ReachableChannel (signal c)
  wakes :
      {c : Channel}
      → 1 ≤ c.counter
      → c.pumping ≡ false
      → ReachableChannel c
      → ReachableChannel (drain_notify c)
  rounds : {c : Channel} → c.pumping ≡ true → ReachableChannel c → ReachableChannel (pump_round c)
