-- ===== src/Ble/EventQueue/Wakeup.antt =====
-- No event is lost, repeated or overtaken, and none is left without a wake-up.
use bms_bridge.Base.{
  ◌≤◌, ◌≡◌, ◌⊎◌, inl, inr, refl, sym, ◌∙◌, ap, List, [], ◌∷◌, ◌++◌, append_assoc, append-nil, true,
  false, arith,
}
use bms_bridge.Ble.EventQueue.{
  BmsEvent, Channel, push_back, signal, try_pop, drain_notify, pump_round, ReachableChannel, start,
  pushes, signals, wakes, rounds,
}

-- While an event waits, the eventfd is readable, or is about to be, or the pump is in its loop.
abbrev pub Awake : Channel → Type 0
Awake c = (c.queue ≡ []) ⊎ ((1 ≤ c.counter) ⊎ ((1 ≤ c.unsignalled) ⊎ (c.pumping ≡ true)))

record Delivers (c : Channel) : Type 0 where
  in_order : c.delivered ++ c.queue ≡ c.pushed
  awake : Awake c

push_back-Delivers : (ev : BmsEvent) (c : Channel) → Delivers c → Delivers (push_back ev c)
unfolding push_back
push_back-Delivers ev c v = record {
  in_order = sym (append_assoc c.delivered c.queue (ev ∷ [])) ∙ ap (λ xs. xs ++ ev ∷ []) v.in_order;
  awake = inr (inr (inl (omega arith)));
}

signal-Delivers : (c : Channel) → Delivers c → Delivers (signal c)
unfolding signal
signal-Delivers c v = record { in_order = v.in_order; awake = inr (inl (omega arith)) }

drain_notify-Delivers : (c : Channel) → Delivers c → Delivers (drain_notify c)
unfolding drain_notify
drain_notify-Delivers c v = record { in_order = v.in_order; awake = inr (inr (inr refl)) }

pump_round-Delivers : (c : Channel) → c.pumping ≡ true → Delivers c → Delivers (pump_round c)
unfolding pump_round try_pop
pump_round-Delivers c p v = go c.queue v.in_order
  where
    go :
        (q : List BmsEvent)
        → c.delivered ++ q ≡ c.pushed
        → Delivers (pump_round (record c { queue = q }))
    go [] e = record { in_order = e; awake = inl refl }
    go (ev ∷ q) e = record {
      in_order = append_assoc c.delivered (ev ∷ []) q ∙ e;
      awake = inr (inr (inr p));
    }

reachable-Delivers : {c : Channel} → ReachableChannel c → Delivers c
reachable-Delivers start = record { in_order = refl; awake = inl refl }
reachable-Delivers (pushes ev {c} r) = push_back-Delivers ev c (reachable-Delivers r)
reachable-Delivers (signals {c} h r) = signal-Delivers c (reachable-Delivers r)
reachable-Delivers (wakes {c} h p r) = drain_notify-Delivers c (reachable-Delivers r)
reachable-Delivers (rounds {c} p r) = pump_round-Delivers c p (reachable-Delivers r)

at_rest :
    (c : Channel)
    → Delivers c
    → c.counter ≡ 0
    → c.unsignalled ≡ 0
    → c.pumping ≡ false
    → c.delivered ≡ c.pushed
at_rest c v e u p = elim v.awake [
  | inl n ↦ sym (append-nil c.delivered) ∙ ap (λ q. c.delivered ++ q) (sym n) ∙ v.in_order
  | inr (inl h) ↦ absurd (omega arith)
  | inr (inr (inl h)) ↦ absurd (omega arith)
  | inr (inr (inr h)) ↦ cc
]

-- In every interleaving of pushes and pumps: the events delivered so far and those that wait are
-- exactly those pushed, in their order; and at rest, when no push is under way, the pump is not in
-- its loop and the eventfd is not readable, all of them have been delivered.
pub reachable-delivered :
    (c : Channel)
    → ReachableChannel c
    → (c.delivered ++ c.queue ≡ c.pushed)
      × (c.counter ≡ 0 → c.unsignalled ≡ 0 → c.pumping ≡ false → c.delivered ≡ c.pushed)
reachable-delivered c r = let v = reachable-Delivers r in (v.in_order, at_rest c v)
