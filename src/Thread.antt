-- ===== src/Thread.antt =====
-- The worker thread of src/thread.cpp and the event of src/event.cpp that wakes it.
pub mod Joining
use bms_bridge.Base.{ℕ, ◌+◌, Bool, true, false, ltb, if◌then◌else◌}

-- The std::thread, where run() is under way or has ended, also by an exception.
pub data Worker : Type 0 where
  not_made : Worker
  running : Worker
  ended : Worker
  joined : Worker

-- `in_join` says that stop() waits in join(); `on_stops` counts the calls of on_stop().
pub record Thread : Type 0 where
  pub worker : Worker
  pub started : Bool
  pub stopping : Bool
  pub on_stops : ℕ
  pub in_join : Bool

abbrev pub new_thread : Thread
new_thread = record {
  worker = not_made;
  started = false;
  stopping = false;
  on_stops = 0;
  in_join = false;
}

abbrev pub joinable : Worker → Bool
joinable not_made = false
joinable running = true
joinable ended = true
joinable joined = false

-- `spawns` is false where std::thread throws, with the flag set.
unfoldable pub start : (spawns : Bool) → Thread → Thread
start spawns t =
    if t.started
    then t
    else record t { started = true; worker = if spawns then running else t.worker }

-- The flag, and on_stop() for the first call.
unfoldable pub call_off : Thread → Thread
call_off t = if t.stopping then t else record t { stopping = true; on_stops = t.on_stops + 1 }

-- stop() up to its join(), which it enters when there is a thread to join.
unfoldable pub stop : Thread → Thread
unfolding call_off
stop t = let s = call_off t in record s { in_join = joinable s.worker }

-- run() returns or throws; the exception is caught.
abbrev pub run_ends : Thread → Thread
run_ends t = record t { worker = ended }

-- join() returns, and stop() with it.
abbrev pub join : Thread → Thread
join t = record t { worker = joined; in_join = false }

-- ~Thread() stops a thread that nobody has joined.
unfoldable pub destroy : Thread → Thread
unfolding stop
destroy t = if joinable t.worker then stop t else t

-- What an eventfd counts; it is readable unless it is 0. A write that the counter cannot take fails.
pub record Event : Type 0 where
  pub counter : ℕ

abbrev pub new_event : Event
new_event = record { counter = 0 }

unfoldable pub signal : Event → Event
signal e = if ltb e.counter 18446744073709551614 then record { counter = e.counter + 1 } else e

unfoldable pub consume : Event → Event
consume e = record { counter = 0 }
