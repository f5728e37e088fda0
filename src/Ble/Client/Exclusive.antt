-- ===== src/Ble/Client/Exclusive.antt =====
-- At most one client scans, and none is forgotten.
use bms_bridge.Base.{
  ℕ, ◌+◌, ◌≡◌, ◌≢◌, ◌⊎◌, inl, inr, sym, ap, ◌∙◌, Option, none, some, some_inj, Bool, true, false,
  Option-cases, ==_refl, ==_iff, arith,
}
use bms_bridge.Ble.ScanCoordinator.{Coordinator, holds}
use bms_bridge.Ble.ScanCoordinator.Exclusion.{Reachable, Reachable-IsOrderly, Orderly}
use bms_bridge.Ble.Client.{
  State, wait_slot, scan, connect, Settings, SlotCall, request_slot, release_slot, Rest, stops,
  Turn,
}
use bms_bridge.Ble.Client.System.{System, ReachableSystem}
use bms_bridge.Ble.Client.Places.{differ, waiting, granted, readable, Place}
use bms_bridge.Ble.Client.Shared.{Shared, reachable-Shared}

holds-some : (o : Option ℕ) (i : ℕ) → holds o i ≡ true → o ≡ some i
holds-some none i e = cc
holds-some (some h) i e = ap some ((==_iff h i).0 e)

-- A client that scans or connects, no stop of it being under way.
abbrev pub Busy : Turn → Type 0
Busy (c, call, rest) = ((c.state ≡ scan) ⊎ (c.state ≡ connect)) × (rest ≢ stops)

busy-holds :
    (s : State) (call : SlotCall) (rest : Rest) (h : Bool) (w t : ℕ)
    → (s ≡ scan) ⊎ (s ≡ connect)
    → rest ≢ stops
    → Place s call rest h w t
    → h ≡ true
busy-holds s call rest h w t b n f = ground arith

-- In every interleaving of the steps of the clients' handlers, at most one client scans or connects,
-- those left out whose stop handler is under way.
pub one_scans :
    {cfg : ℕ → Settings} (s : System)
    → ReachableSystem cfg s
    → (i j : ℕ) → Busy (s.clients i)
    → Busy (s.clients j)
    → i ≡ j
one_scans s v i j bi bj =
    let p = (reachable-Shared v).places in
    some_inj (
      sym (holds-some _ i (busy-holds _ _ _ _ _ _ bi.0 bi.1 (p i)))
      ∙ holds-some _ j (busy-holds _ _ _ _ _ _ bj.0 bj.1 (p j)))

-- The client holds the slot, and scans, connects, or is about to scan, since one signal for it is on
-- its way or not read yet; or its next step is to release the slot.
abbrev pub Goes : State → SlotCall → ℕ → Type 0
Goes s call t = (s ≡ scan) ⊎ ((s ≡ connect) ⊎ (((s ≡ wait_slot) × (t ≡ 1)) ⊎ (call ≡ release_slot)))

abbrev pub HasTurn : System → ℕ → Type 0
HasTurn s h =
    let (c, call, rest) = s.clients h in
    (s.coordinator.holder ≡ some h) × Goes c.state call (readable c.slot_event + granted h s.grants)

abbrev pub WaitsBehind : System → ℕ → ℕ → Type 0
WaitsBehind s i h = (h ≢ i) × (waiting i s.coordinator.waiters ≡ 1) × HasTurn s h

owns-turn :
    (s : State) (call : SlotCall) (rest : Rest) (h : Bool) (w t : ℕ)
    → Place s call rest h w t
    → h ≡ true
    → Goes s call t
owns-turn s call rest h w t f e = ground arith

held_or_queued :
    (s : State) (call : SlotCall) (rest : Rest) (h : Bool) (w t : ℕ)
    → s ≡ wait_slot
    → rest ≢ stops
    → call ≢ request_slot
    → Place s call rest h w t
    → ((h ≡ true) × (t ≡ 1)) ⊎ ((h ≡ false) × (w ≡ 1))
held_or_queued s call rest h w t e n m f = ground arith

holder-HasTurn : (s : System) (h : ℕ) → Shared s → s.coordinator.holder ≡ some h → HasTurn s h
holder-HasTurn s h v e = (e, owns-turn _ _ _ _ _ _ (v.places h) (ap (λ o. holds o h) e ∙ ==_refl h))

none_waits : (k : Coordinator ℕ) (i : ℕ) → Reachable k → k.holder ≡ none → waiting i k.waiters ≡ 0
none_waits k i r n = go k.holder n (Reachable-IsOrderly r)
  where
    go : (o : Option ℕ) → o ≡ none → Orderly o k.waiters → waiting i k.waiters ≡ 0
    go none e w = ap (waiting i) w
    go (some h) e w = cc

behind :
    (s : System) (i : ℕ)
    → Shared s
    → holds s.coordinator.holder i ≡ false
    → waiting i s.coordinator.waiters ≡ 1
    → (h : ℕ) × WaitsBehind s i h
behind s i v e w = elim (Option-cases s.coordinator.holder) [
  | inl n ↦ absurd (omega (arith, none_waits s.coordinator i v.coordinated n))
  | inr (h, o) ↦
      (h, ((λ q. differ h i (sym (ap (λ p. holds p i) o) ∙ e) q), w, holder-HasTurn s h v o))
]

-- In every interleaving of the steps of the clients' handlers, for a client in the wait_slot state
-- whose request has been made and whose stop handler is not under way: either it holds the slot and
-- exactly one signal for it is on its way or not read; or it waits in the queue exactly once, while
-- another client holds the slot, and that one scans, connects, is in the wait_slot state with one
-- such signal, or releases the slot by its next step.
pub waiting-HasTurn :
    {cfg : ℕ → Settings} (s : System)
    → ReachableSystem cfg s
    → (i : ℕ) → (s.clients i).0.state ≡ wait_slot
    → (s.clients i).1 ≢ request_slot
    → (s.clients i).2 ≢ stops
    → ((s.coordinator.holder ≡ some i)
        × (readable (s.clients i).0.slot_event + granted i s.grants ≡ 1))
      ⊎ ((h : ℕ) × WaitsBehind s i h)
waiting-HasTurn s v i e m n =
    let shared = reachable-Shared v in
    elim (held_or_queued _ _ _ _ _ _ e n m (shared.places i)) [
      | inl (h, t) ↦ inl (holds-some _ i h, t)
      | inr (h, w) ↦ inr (behind s i shared h w)
    ]
