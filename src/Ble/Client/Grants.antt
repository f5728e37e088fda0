-- ===== src/Ble/Client/Grants.antt =====
-- What a call of the scan coordinator does to the caller, and to the other owners.
use bms_bridge.Base.{
  ℕ, suc, ◌+◌, ◌≤◌, ◌≡◌, ◌≢◌, ◌⊎◌, inl, inr, refl, sym, List, [], ◌∷◌, ◌++◌, Option, none, some,
  Bool, true, false, Bool-cases, ==_refl, if◌then◌else◌, ◌==◌, All, All-append, arith,
}
use bms_bridge.Ble.ScanCoordinator.{
  Waiter, Coordinator, holds, queued, erase, enqueue, request, hand_over, release,
}
use bms_bridge.Ble.ScanCoordinator.Exclusion.{Reachable, by_request, by_release}
use bms_bridge.Ble.Client.{
  State, wait_slot, SlotCall, no_call, request_slot, release_slot, nothing, connects, arms_backoff,
  consumes_work, stops, Turn,
}
use bms_bridge.Ble.Client.System.{slot_call, add_grant}
use bms_bridge.Ble.Client.Places.{waiting, granted, readable, Fits, Placed, Passed}

-- A callback's value is the number of its owner.
abbrev pub CallsOwners : Coordinator ℕ → Type 0
CallsOwners k = All (λ (w : Waiter ℕ). w.cb ≡ w.owner) k.waiters

queued-waiting : (i : ℕ) (ws : List (Waiter ℕ)) → waiting i ws ≡ 0 → queued i ws ≡ false
unfolding queued
queued-waiting i [] e = refl
queued-waiting i (w ∷ ws) e = ground (arith, queued-waiting i ws)

waiting-snoc :
    (i : ℕ) (ws : List (Waiter ℕ)) (w : Waiter ℕ)
    → waiting i (ws ++ w ∷ []) ≡ waiting i ws + (if w.owner == i then 1 else 0)
waiting-snoc i [] w = omega arith
waiting-snoc i (v ∷ ws) w = omega (arith, waiting-snoc i ws w)

waiting-erase_other :
    (i j : ℕ) (ws : List (Waiter ℕ)) → i ≢ j → waiting j (erase i ws) ≡ waiting j ws
unfolding erase
waiting-erase_other i j [] n = refl
waiting-erase_other i j (w ∷ ws) n = ground (arith, waiting-erase_other i j ws n)

waiting-erase_own : (i : ℕ) (ws : List (Waiter ℕ)) → waiting i ws ≤ 1 → waiting i (erase i ws) ≡ 0
unfolding erase
waiting-erase_own i [] l = refl
waiting-erase_own i (w ∷ ws) l = ground (arith, waiting-erase_own i ws)

-- What an owner has of the slot in a coordinator, with the grants that its last call yields.
abbrev Own : (Bool → ℕ → ℕ → Type 0) → ℕ → List ℕ → Coordinator ℕ × Option ℕ → Type 0
Own P j gs (k, g) = P (holds k.holder j) (waiting j k.waiters) (granted j (add_grant g gs))

abbrev Granted : ℕ → Bool → ℕ → ℕ → Type 0
Granted t h' w' t' = ((h' ≡ true) × (w' ≡ 0) × (t' ≡ suc t)) ⊎ ((h' ≡ false) × (w' ≡ 1) × (t' ≡ t))

request-Granted :
    (i : ℕ) (k : Coordinator ℕ) (gs : List ℕ)
    → holds k.holder i ≡ false
    → waiting i k.waiters ≡ 0
    → Own (Granted (granted i gs)) i gs (request i i k)
unfolding request enqueue
request-Granted i k gs h w = go k.holder h
  where
    go :
        (o : Option ℕ)
        → holds o i ≡ false
        → Own (Granted (granted i gs)) i gs (request i i (record k { holder = o }))
    go none e = ground (arith, ==_refl i)
    go (some h) e =
        rw (e, request, queued-waiting i k.waiters w, enqueue)
          (rw (e)
            (ground (arith, ==_refl i, waiting-snoc i k.waiters (record { owner = i; cb = i }))))

request-Passed :
    (i j : ℕ) (k : Coordinator ℕ) (gs : List ℕ)
    → i ≢ j
    → Own (Passed (holds k.holder j) (waiting j k.waiters) (granted j gs)) j gs (request i i k)
unfolding request enqueue
request-Passed i j k gs n = go k.holder
  where
    go :
        (o : Option ℕ)
        → Own
            (Passed (holds o j) (waiting j k.waiters) (granted j gs))
            j
            gs
            (request i i (record k { holder = o }))
    go none = ground arith
    go (some h) = elim (Bool-cases (h == i)) [
      | inl e ↦ rw (e, request) (ground arith)
      | inr e ↦ elim (Bool-cases (queued i k.waiters)) [
        | inl q ↦ rw (e, request, q, enqueue) (ground arith)
        | inr q ↦
            rw (e, request, q, enqueue)
              (ground (arith, waiting-snoc j k.waiters (record { owner = i; cb = i })))
      ]
    ]

release-Own :
    (i : ℕ) (k : Coordinator ℕ) (gs : List ℕ)
    → CallsOwners k
    → (holds k.holder i ≡ true → waiting i k.waiters ≡ 0)
    → waiting i k.waiters ≤ 1
    → Own (λ h w t. (h ≡ false) × (w ≡ 0) × (t ≡ granted i gs)) i gs (release i k)
unfolding release hand_over
release-Own i k gs c z l = elim (Bool-cases (holds k.holder i)) [
  | inl e ↦ rw (e, release) (handed k.waiters c (z e))
  | inr e ↦ rw (e, release) (e, waiting-erase_own i k.waiters l, refl)
]
  where
    handed :
        (ws : List (Waiter ℕ))
        → All (λ (w : Waiter ℕ). w.cb ≡ w.owner) ws
        → waiting i ws ≡ 0
        → Own (λ h w t. (h ≡ false) × (w ≡ 0) × (t ≡ granted i gs)) i gs (hand_over ws)
    handed [] c z = (refl, refl, refl)
    handed (w ∷ ws) c z = ground arith

release-Passed :
    (i j : ℕ) (k : Coordinator ℕ) (gs : List ℕ)
    → i ≢ j
    → CallsOwners k
    → (waiting j k.waiters ≤ 1)
    → Own (Passed (holds k.holder j) (waiting j k.waiters) (granted j gs)) j gs (release i k)
unfolding release hand_over
release-Passed i j k gs n c l = elim (Bool-cases (holds k.holder i)) [
  | inl e ↦ rw (e, release) (handed k.holder e k.waiters c l)
  | inr e ↦ rw (e, release) (inl (refl, sym (waiting-erase_other i j k.waiters n), refl))
]
  where
    handed :
        (o : Option ℕ)
        → holds o i ≡ true
        → (ws : List (Waiter ℕ)) → All (λ (w : Waiter ℕ). w.cb ≡ w.owner) ws
        → waiting j ws ≤ 1
        → Own (Passed (holds o j) (waiting j ws) (granted j gs)) j gs (hand_over ws)
    handed none e ws c l = cc
    handed (some h) e [] c l = ground arith
    handed (some h) e (w ∷ ws) c l = ground arith

erase-All : (P : Waiter ℕ → Type 0) (i : ℕ) (ws : List (Waiter ℕ)) → All P ws → All P (erase i ws)
unfolding erase
erase-All P i [] a = tt
erase-All P i (w ∷ ws) a = elim (w.owner == i) as (λ b. All P (if b then ws else w ∷ erase i ws)) [
  | true ↦ a.1
  | false ↦ (a.0, erase-All P i ws a.1)
]

request-CallsOwners : (i : ℕ) (k : Coordinator ℕ) → CallsOwners k → CallsOwners (request i i k).0
unfolding request enqueue
request-CallsOwners i k c = go k.holder
  where
    go : (o : Option ℕ) → CallsOwners (request i i (record k { holder = o })).0
    go none = c
    go (some h) = elim (Bool-cases (h == i)) [
      | inl e ↦ rw (e, request) c
      | inr e ↦ elim (Bool-cases (queued i k.waiters)) [
        | inl q ↦ rw (e, request, q, enqueue) c
        | inr q ↦ rw (e, request, q, enqueue) (All-append _ k.waiters _ c (refl, tt))
      ]
    ]

release-CallsOwners : (i : ℕ) (k : Coordinator ℕ) → CallsOwners k → CallsOwners (release i k).0
unfolding release hand_over
release-CallsOwners i k c = elim (Bool-cases (holds k.holder i)) [
  | inl e ↦ rw (e, release) (handed k.waiters c)
  | inr e ↦ rw (e, release) (erase-All _ i k.waiters c)
]
  where
    handed :
        (ws : List (Waiter ℕ))
        → All (λ (w : Waiter ℕ). w.cb ≡ w.owner) ws
        → CallsOwners (hand_over ws).0
    handed [] c = tt
    handed (w ∷ ws) c = c.1

-- Any call of the coordinator, by the client that makes it and as the others see it.
pub call-CallsOwners :
    (i : ℕ) (m : SlotCall) (k : Coordinator ℕ) → CallsOwners k → CallsOwners (slot_call i m k).0
call-CallsOwners i no_call k c = c
call-CallsOwners i request_slot k c = request-CallsOwners i k c
call-CallsOwners i release_slot k c = release-CallsOwners i k c

pub call-Reachable :
    (i : ℕ) (m : SlotCall) (k : Coordinator ℕ) → Reachable k → Reachable (slot_call i m k).0
call-Reachable i no_call k r = r
call-Reachable i request_slot k r = by_request i i r
call-Reachable i release_slot k r = by_release i r

pub call-Passed :
    (i j : ℕ) (m : SlotCall) (k : Coordinator ℕ) (gs : List ℕ)
    → i ≢ j
    → CallsOwners k
    → waiting j k.waiters ≤ 1
    → Own (Passed (holds k.holder j) (waiting j k.waiters) (granted j gs)) j gs (slot_call i m k)
call-Passed i j no_call k gs n c l = inl (refl, refl, refl)
call-Passed i j request_slot k gs n c l = request-Passed i j k gs n
call-Passed i j release_slot k gs n c l = release-Passed i j k gs n c l

requested :
    (s : State) (e : Bool) (t : ℕ)
    → s ≡ wait_slot
    → readable e + t ≡ 0
    → Fits s true 0 (readable e + suc t) × Fits s false 1 (readable e + t)
requested s e t q z = ground arith

pub call-Placed :
    (i : ℕ) (u : Turn) (k : Coordinator ℕ) (gs : List ℕ)
    → CallsOwners k
    → Placed u (holds k.holder i) (waiting i k.waiters) (granted i gs)
    → Own (Placed (u.0, no_call, u.2)) i gs (slot_call i u.1 k)
call-Placed i (c, no_call, rest) k gs o f = f
call-Placed i (c, request_slot, nothing) k gs o f = elim (request-Granted i k gs f.1 f.2) [
  | inl (e, z, g) ↦ rw (e, z, g) (requested c.state c.slot_event (granted i gs) f.0 f.3).0
  | inr (e, z, g) ↦ rw (e, z, g) (requested c.state c.slot_event (granted i gs) f.0 f.3).1
]
call-Placed i (c, request_slot, connects) k gs o f = absurd f
call-Placed i (c, request_slot, arms_backoff) k gs o f = absurd f
call-Placed i (c, request_slot, consumes_work) k gs o f = absurd f
call-Placed i (c, request_slot, stops) k gs o f = absurd f
call-Placed i (c, release_slot, nothing) k gs o f = absurd f
call-Placed i (c, release_slot, connects) k gs o f = absurd f
call-Placed i (c, release_slot, arms_backoff) k gs o f =
    let (e, z, g) = release-Own i k gs o (λ h. f.1) (omega (arith, f.1)) in
    rw (e, z, g) (f.0, refl, refl, f.2)
call-Placed i (c, release_slot, consumes_work) k gs o f =
    let (e, z, g) = release-Own i k gs o (λ h. f.1) (omega (arith, f.1)) in
    rw (e, z, g) (f.0, refl, refl, f.2)
call-Placed i (c, release_slot, stops) k gs o f =
    let (e, z, g) = release-Own i k gs o f.0 f.1 in (e, z)
