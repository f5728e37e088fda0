-- ===== src/Tests/Events.antt =====
-- A run of the event channel: two pushes, of which the pump takes one while the other is on its way.
use bms_bridge.Base.{◌≡◌, ◌≤◌, refl, true, false, [], ◌∷◌, ◌++◌, arith}
use bms_bridge.Ble.EventQueue.{
  link_up, notify_frame, Channel, new_channel, push_back, signal, drain_notify, pump_round,
  ReachableChannel, start, pushes, signals, wakes, rounds,
}
use bms_bridge.Ble.EventQueue.Wakeup.{reachable-delivered}

abbrev signalled : Channel
signalled = signal (push_back link_up new_channel)

one_under_way : 1 ≤ (push_back link_up new_channel).unsignalled
unfolding push_back
one_under_way = omega arith

readable : 1 ≤ signalled.counter
unfolding signal push_back
readable = omega arith

idle_pump : signalled.pumping ≡ false
unfolding signal push_back
idle_pump = refl

abbrev pumped : Channel
pumped = pump_round (push_back (notify_frame (1 ∷ [])) (drain_notify signalled))

in_loop : (push_back (notify_frame (1 ∷ [])) (drain_notify signalled)).pumping ≡ true
unfolding drain_notify push_back
in_loop = refl

pumped-Reachable : ReachableChannel pumped
pumped-Reachable = rounds in_loop (
    pushes (notify_frame (1 ∷ []))
      (wakes readable idle_pump (signals one_under_way (pushes link_up start))))

reachable-delivered_example :
    (pumped.delivered ++ pumped.queue ≡ pumped.pushed)
    × (pumped.counter ≡ 0
        → pumped.unsignalled ≡ 0
        → pumped.pumping ≡ false
        → pumped.delivered ≡ pumped.pushed)
reachable-delivered_example = reachable-delivered pumped pumped-Reachable
