-- ===== src/Ble/Client/Shared.antt =====
-- Every client of a reachable system has its place.
use bms_bridge.Base.{
  ℕ, ◌+◌, ◌≤◌, ◌≡◌, inl, inr, refl, ap, ◌∙◌, List, [], ◌∷◌, ◌++◌, Bool, Bool-cases, ==_refl, ==_iff,
  subst, if◌then◌else◌, ◌==◌, arith,
}
use bms_bridge.Ble.ScanCoordinator.{holds}
use bms_bridge.Ble.ScanCoordinator.Exclusion.{Reachable}
use bms_bridge.Ble.Client.{State, Settings, Radio, SlotCall, no_call, Rest, Turn, resume}
use bms_bridge.Ble.Client.System.{
  System, new_system, put, act, call_slot, change, signal_slot, AtRest, ReachableSystem, start,
  launches, begins, calls, resumes, calls_back, signals,
}
use bms_bridge.Ble.Client.Places.{
  differ, waiting, granted, readable, Fits, Place, Placed, begin-Placed, launch-Placed,
  resume-Placed, call_back-Placed, signal-Placed, Passed-Placed,
}
use bms_bridge.Ble.Client.Grants.{
  CallsOwners, call-CallsOwners, call-Reachable, call-Passed, call-Placed,
}

-- Each client has of the slot what its state and its handler say, and the coordinator calls owners.
abbrev pub HasPlace : System → ℕ → Type 0
HasPlace s j =
    Placed (s.clients j) (holds s.coordinator.holder j) (waiting j s.coordinator.waiters)
      (granted j s.grants)

pub record Shared (s : System) : Type 0 where
  pub places : (j : ℕ) → HasPlace s j
  pub calls : CallsOwners s.coordinator
  pub coordinated : Reachable s.coordinator

Place-one :
    (s : State) (call : SlotCall) (rest : Rest) (h : Bool) (w t : ℕ)
    → Place s call rest h w t
    → w ≤ 1
Place-one s call rest h w t f = ground arith

-- A step of a client by itself.
act-Shared :
    (i : ℕ) (u : Turn) (s : System)
    → Shared s
    → Placed u (holds s.coordinator.holder i) (waiting i s.coordinator.waiters) (granted i s.grants)
    → Shared (act i u s)
act-Shared i u s v f = record { places = place; calls = v.calls; coordinated = v.coordinated }
  where
    same : HasPlace (act i u s) i
    same = rw (==_refl i) f

    place : (j : ℕ) → HasPlace (act i u s) j
    place j = elim (Bool-cases (i == j)) [
      | inl e ↦ subst (HasPlace (act i u s)) ((==_iff i j).0 e) same
      | inr e ↦ rw (e) (v.places j)
    ]

-- A call of the coordinator.
call_slot-Shared : (i : ℕ) (s : System) → Shared s → Shared (call_slot i s)
unfolding call_slot
call_slot-Shared i s v = record {
  places = place;
  calls = call-CallsOwners i (s.clients i).1 s.coordinator v.calls;
  coordinated = call-Reachable i (s.clients i).1 s.coordinator v.coordinated;
}
  where
    same : HasPlace (call_slot i s) i
    same = rw (==_refl i) (call-Placed i (s.clients i) s.coordinator s.grants v.calls (v.places i))

    place : (j : ℕ) → HasPlace (call_slot i s) j
    place j = elim (Bool-cases (i == j)) [
      | inl e ↦ subst (HasPlace (call_slot i s)) ((==_iff i j).0 e) same
      | inr e ↦ rw (e) (
          Passed-Placed (s.clients j) _ _ _ _ _ _
            (call-Passed i j (s.clients i).1 s.coordinator s.grants (differ i j e) v.calls
              (Place-one _ _ _ _ _ _ (v.places j)))
            (v.places j))
    ]

granted-remove :
    (j i : ℕ) (before after : List ℕ)
    → granted j (before ++ i ∷ after) ≡ (if i == j then 1 else 0) + granted j (before ++ after)
granted-remove j i [] after = refl
granted-remove j i (g ∷ before) after = omega (arith, granted-remove j i before after)

signal-Shared :
    (i : ℕ) (before after : List ℕ) (s : System)
    → s.grants ≡ before ++ i ∷ after
    → Shared s
    → Shared (record s {
      clients = put i (change signal_slot (s.clients i)) s.clients;
      grants = before ++ after;
    })
signal-Shared i before after s e v = record {
  places = place;
  calls = v.calls;
  coordinated = v.coordinated;
}
  where
    after_signal : System
    after_signal = record s {
      clients = put i (change signal_slot (s.clients i)) s.clients;
      grants = before ++ after;
    }

    -- The place of `j` before the signal, with the removed grant counted apart.
    counted :
        (j t : ℕ)
        → (if i == j then 1 else 0) + granted j (before ++ after) ≡ t
        → Placed (s.clients j) (holds s.coordinator.holder j) (waiting j s.coordinator.waiters) t
    counted j t n =
        subst
          (λ t.
            Placed (s.clients j) (holds s.coordinator.holder j) (waiting j s.coordinator.waiters) t)
          (ap (granted j) e ∙ granted-remove j i before after ∙ n) (v.places j)

    same : HasPlace after_signal i
    same = rw (==_refl i) (signal-Placed (s.clients i) _ _ _ (counted i _ (rw (==_refl i) refl)))

    place : (j : ℕ) → HasPlace after_signal j
    place j = elim (Bool-cases (i == j)) [
      | inl h ↦ subst (HasPlace after_signal) ((==_iff i j).0 h) same
      | inr h ↦ rw (h) (counted j _ (rw (h) (omega arith)))
    ]

start-Shared : Shared new_system
start-Shared = record {
  places = λ j. (refl, refl, refl);
  calls = tt;
  coordinated = Reachable.start;
}

rest-Fits :
    (u : Turn) (h : Bool) (w t : ℕ)
    → AtRest u
    → Placed u h w t
    → Fits u.0.state h w (readable u.0.slot_event + t)
rest-Fits (c, call, rest) h w t (e, q) f = rw (e, q) at f

resumed :
    (cfg : Settings) (r : Radio) (u : Turn) (h : Bool) (w t : ℕ)
    → u.1 ≡ no_call
    → Placed u h w t
    → Placed (resume cfg r u.2 u.0) h w t
resumed cfg r (c, call, rest) h w t e f = resume-Placed cfg r c rest h w t (rw e at f)

pub reachable-Shared : {cfg : ℕ → Settings} {s : System} → ReachableSystem cfg s → Shared s
reachable-Shared start = start-Shared
reachable-Shared {cfg} (launches i r {s} q e v) =
    let shared = reachable-Shared v in
    let f = rest-Fits (s.clients i) _ _ _ q (shared.places i) in
    act-Shared i _ s shared (launch-Placed (cfg i) r (s.clients i).0 _ _ _ e f)
reachable-Shared {cfg} (begins i h r {s} q e v) =
    let shared = reachable-Shared v in
    let f = rest-Fits (s.clients i) _ _ _ q (shared.places i) in
    act-Shared i _ s shared (begin-Placed (cfg i) h r (s.clients i).0 _ _ _ e f)
reachable-Shared (calls i {s} v) = call_slot-Shared i s (reachable-Shared v)
reachable-Shared {cfg} (resumes i r {s} e v) =
    let shared = reachable-Shared v in
    act-Shared i _ s shared (resumed (cfg i) r (s.clients i) _ _ _ e (shared.places i))
reachable-Shared {cfg} (calls_back i b {s} v) =
    let shared = reachable-Shared v in
    act-Shared i _ s shared (call_back-Placed (cfg i) b (s.clients i) _ _ _ (shared.places i))
reachable-Shared (signals i before after {s} e v) =
    signal-Shared i before after s e (reachable-Shared v)
