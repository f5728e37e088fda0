-- ===== src/Ble/ScanCoordinator.antt =====
-- BleScanCoordinator of src/ble_scan_coordinator.cpp: one owner at a time scans and connects.
--
-- An owner is a number that stands for its address; the null pointer of `holder_` is none. The mutex
-- makes each method one step; the callback that it runs behind the unlock is returned.
pub mod Exclusion
use bms_bridge.Base.{
  ℕ, List, [], ◌∷◌, ◌++◌, Option, none, some, Bool, true, false, ◌==◌, ◌||◌, if◌then◌else◌,
}

pub record Waiter (C : Type 0) : Type 0 where
  pub owner : ℕ
  pub cb : C

pub record Coordinator (C : Type 0) : Type 0 where
  pub holder : Option ℕ
  pub waiters : List (Waiter C)

abbrev pub holds : Option ℕ → ℕ → Bool
holds none owner = false
holds (some h) owner = h == owner

module _ {C : Type 0} where
  abbrev pub idle : Coordinator C
  idle = record { holder = none; waiters = [] }

  unfoldable pub queued : ℕ → List (Waiter C) → Bool
  queued owner [] = false
  queued owner (w ∷ ws) = w.owner == owner || queued owner ws

  -- Erase the first waiter of the owner.
  unfoldable pub erase : ℕ → List (Waiter C) → List (Waiter C)
  erase owner [] = []
  erase owner (w ∷ ws) = let rest = erase owner ws in if w.owner == owner then ws else w ∷ rest

  -- The slot is taken by another owner.
  unfoldable pub enqueue : ℕ → C → Coordinator C → Coordinator C × Option C
  enqueue owner on_granted s = if queued owner s.waiters then (s, none) else (
    record s { waiters = s.waiters ++ record { owner = owner; cb = on_granted } ∷ [] },
    none,
  )

  unfoldable pub request : ℕ → C → Coordinator C → Coordinator C × Option C
  request owner on_granted s =
      if holds s.holder owner then (s, some on_granted) else elim s.holder [
        | none ↦ (record s { holder = some owner }, some on_granted)
        | some h ↦ enqueue owner on_granted s
      ]

  -- The slot is free: the first waiter gets it.
  unfoldable pub hand_over : List (Waiter C) → Coordinator C × Option C
  hand_over [] = (record { holder = none; waiters = [] }, none)
  hand_over (w ∷ ws) = (record { holder = some w.owner; waiters = ws }, some w.cb)

  unfoldable pub release : ℕ → Coordinator C → Coordinator C × Option C
  release owner s =
      if holds s.holder owner
      then hand_over s.waiters
      else (record s { waiters = erase owner s.waiters }, none)
