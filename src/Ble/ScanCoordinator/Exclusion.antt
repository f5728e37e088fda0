-- ===== src/Ble/ScanCoordinator/Exclusion.antt =====
-- Who holds the scan slot, and who gets it next.
use bms_bridge.Base.{
  ℕ, zero, suc, ◌≡◌, ◌≢◌, inl, inr, refl, sym, ◌∙◌, ap, List, [], ◌∷◌, ◌++◌, Option, none, some,
  some_inj, Bool, true, false, Bool-cases, ==_refl, ◌==◌, ◌||◌, if◌then◌else◌, get_elem?, All,
  arith,
}
use bms_bridge.Ble.ScanCoordinator.{
  Waiter, Coordinator, idle, queued, erase, enqueue, request, hand_over, release,
}

neither : (a b : Bool) → (a || b) ≡ false → (a ≡ false) × (b ≡ false)
neither true b e = cc
neither false b e = (refl, e)

differ : (a b : ℕ) → (a == b) ≡ false → a ≢ b
differ a b e = ground arith

module _ {C : Type 0} where
  -- No waiter has the given owner.
  abbrev pub Absent : ℕ → List (Waiter C) → Type 0
  Absent owner = All (λ (w : Waiter C). w.owner ≢ owner)

  abbrev pub Distinct : List (Waiter C) → Type 0
  Distinct [] = Unit
  Distinct (w ∷ ws) = Absent w.owner ws × Distinct ws

  -- Nobody waits for a free slot; the holder does not wait, and nobody waits twice.
  abbrev pub Orderly : Option ℕ → List (Waiter C) → Type 0
  Orderly none ws = ws ≡ []
  Orderly (some h) ws = Absent h ws × Distinct ws

  abbrev pub IsOrderly : Coordinator C → Type 0
  IsOrderly s = Orderly s.holder s.waiters

  Absent-erase : (o h : ℕ) (ws : List (Waiter C)) → Absent h ws → Absent h (erase o ws)
  unfolding erase
  Absent-erase o h [] a = tt
  Absent-erase o h (w ∷ ws) a =
      elim (w.owner == o) as (λ b. Absent h (if b then ws else w ∷ erase o ws)) [
        | true ↦ a.1
        | false ↦ (a.0, Absent-erase o h ws a.1)
      ]

  Distinct-erase : (o : ℕ) (ws : List (Waiter C)) → Distinct ws → Distinct (erase o ws)
  unfolding erase
  Distinct-erase o [] d = tt
  Distinct-erase o (w ∷ ws) d =
      elim (w.owner == o) as (λ b. Distinct (if b then ws else w ∷ erase o ws)) [
        | true ↦ d.1
        | false ↦ (Absent-erase o w.owner ws d.0, Distinct-erase o ws d.1)
      ]

  Absent-snoc :
      (h : ℕ) (ws : List (Waiter C)) (v : Waiter C)
      → Absent h ws
      → v.owner ≢ h
      → Absent h (ws ++ v ∷ [])
  Absent-snoc h [] v a n = (n, tt)
  Absent-snoc h (w ∷ ws) v a n = (a.0, Absent-snoc h ws v a.1 n)

  Distinct-snoc :
      (ws : List (Waiter C)) (v : Waiter C)
      → Distinct ws
      → Absent v.owner ws
      → Distinct (ws ++ v ∷ [])
  Distinct-snoc [] v d a = (tt, tt)
  Distinct-snoc (w ∷ ws) v d a =
      (Absent-snoc w.owner ws v d.0 (λ e. a.0 (sym e)), Distinct-snoc ws v d.1 a.1)

  queued-Absent : (o : ℕ) (ws : List (Waiter C)) → queued o ws ≡ false → Absent o ws
  unfolding queued
  queued-Absent o [] e = tt
  queued-Absent o (w ∷ ws) e =
      let parts = neither (w.owner == o) (queued o ws) e in
      (differ w.owner o parts.0, queued-Absent o ws parts.1)

  request-IsOrderly :
      (owner : ℕ) (cb : C) (s : Coordinator C) → IsOrderly s → IsOrderly (request owner cb s).0
  unfolding request enqueue
  request-IsOrderly owner cb s v = go s.holder s.waiters v
    where
      go :
          (h : Option ℕ) (ws : List (Waiter C))
          → Orderly h ws
          → IsOrderly (request owner cb (record { holder = h; waiters = ws })).0
      go none ws v = rw v (tt, tt)
      go (some h) ws v = elim (Bool-cases (h == owner)) [
        | inl e ↦ rw (e, request) v
        | inr e ↦ elim (Bool-cases (queued owner ws)) [
          | inl q ↦ rw (e, request, q, enqueue) v
          | inr q ↦
              let absent = queued-Absent owner ws q in
              rw (e, request, q, enqueue)
                (
                  Absent-snoc h ws _ v.0 (λ o. differ h owner e (sym o)),
                  Distinct-snoc ws _ v.1 absent,
                )
        ]
      ]

  erase-nil : (owner : ℕ) → erase {C = C} owner [] ≡ []
  unfolding erase
  erase-nil owner = refl

  release-IsOrderly : (owner : ℕ) (s : Coordinator C) → IsOrderly s → IsOrderly (release owner s).0
  unfolding release hand_over
  release-IsOrderly owner s v = go s.holder s.waiters v
    where
      handed : (ws : List (Waiter C)) → Distinct ws → IsOrderly (hand_over ws).0
      handed [] d = refl
      handed (w ∷ ws) d = d

      go :
          (h : Option ℕ) (ws : List (Waiter C))
          → Orderly h ws
          → IsOrderly (release owner (record { holder = h; waiters = ws })).0
      go none ws v = rw v (erase-nil owner)
      go (some h) ws v = elim (Bool-cases (h == owner)) [
        | inl e ↦ rw (e, release) (handed ws v.1)
        | inr e ↦ rw (e, release) (Absent-erase owner h ws v.0, Distinct-erase owner ws v.1)
      ]

  -- The states that any sequence of requests and releases, by any owners, leads to.
  pub data Reachable : Coordinator C → Type 0 where
    start : Reachable idle
    by_request :
        (owner : ℕ) (cb : C) {s : Coordinator C} → Reachable s → Reachable (request owner cb s).0
    by_release : (owner : ℕ) {s : Coordinator C} → Reachable s → Reachable (release owner s).0

  -- In every reachable state: while the slot is free nobody waits for it, the holder does not wait,
  -- and no owner waits twice.
  pub Reachable-IsOrderly : {s : Coordinator C} → Reachable s → IsOrderly s
  Reachable-IsOrderly start = refl
  Reachable-IsOrderly (by_request owner cb {s} r) =
      request-IsOrderly owner cb s (Reachable-IsOrderly r)
  Reachable-IsOrderly (by_release owner {s} r) = release-IsOrderly owner s (Reachable-IsOrderly r)

  -- Every holder releases in its turn.
  abbrev pub turns : ℕ → Coordinator C → Coordinator C
  turns zero s = s
  turns (suc n) s = turns n (elim s.holder [ none ↦ s | some h ↦ (release h s).0 ])

  release-turn :
      (h : ℕ) (v : Waiter C) (ws : List (Waiter C))
      → (release h (record { holder = some h; waiters = v ∷ ws })).0
        ≡ record { holder = some v.owner; waiters = ws }
  unfolding hand_over release
  release-turn h v ws = rw (==_refl h, release)

  -- The waiters hold the slot in the order in which they came: the one at place `n` after n + 1
  -- releases by the holders of their times.
  pub turns-fifo :
      (n h : ℕ) (ws : List (Waiter C)) (w : Waiter C)
      → get_elem? ws n ≡ some w
      → (turns (suc n) (record { holder = some h; waiters = ws })).holder ≡ some w.owner
  turns-fifo n h [] w e = cc
  turns-fifo zero h (v ∷ ws) w e =
      ap (λ (s : Coordinator C). s.holder) (release-turn h v ws)
      ∙ ap (λ (x : Waiter C). some x.owner) (some_inj e)
  turns-fifo (suc n) h (v ∷ ws) w e =
      ap (λ s. (turns (suc n) s).holder) (release-turn h v ws) ∙ turns-fifo n v.owner ws w e
