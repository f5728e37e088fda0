-- ===== src/History/Queries/Thinning.antt =====
-- What the SELECTs yield: rows of the window, the newest first, and the newest of each bucket.
use native.Mathlib.Nat.{le-div_iff_mul-le, mul-div-le}
use bms_bridge.Base.{
  ℕ, ◌-◌, ◌*◌, ◌/◌, ◌≤◌, ◌<◌, ◌≡◌, ◌⊎◌, refl, sym, subst, ap, ◌∙◌, List, [], ◌∷◌, Option, none,
  some, some_inj, true, false, Bool-cases, inl, inr, lt→ltb, ◌==◌, ==_iff, All, All-map,
  All-map_both, arith,
}
use bms_bridge.History.Queries.{
  Row, in_window, where_clause, by_time, bucket, is_bucket, first_of_buckets, select_samples,
}
use bms_bridge.History.Queries.Clauses.{
  time, Descends, where_clause-All, by_time-All, first-All, by_time-All_inv, where_clause-All_inv,
  where_clause-window, by_time-Descends,
}

-- Some element has the property.
abbrev pub Any : (Row → Type 0) → List Row → Type 0
Any P [] = ⊥
Any P (r ∷ rs) = P r ⊎ Any P rs

div_mono : (a c k : ℕ) → 0 < k → a ≤ c → a / k ≤ c / k
div_mono a c k h l =
    let m : k * (a / k) ≤ a = mul-div-le a k in (le-div_iff_mul-le h).1 (grind arith)

<-≤-trans : {x y z : ℕ} → x < y → y ≤ z → x < z
<-≤-trans l m = omega arith

below : (c b : ℕ) → b ≤ c → (c == b) ≡ false → b < c
below c b l e = ground arith

≤-refl : {n : ℕ} → n ≤ n
≤-refl = omega arith

-- The buckets of a window, from `from_ms` on and `step_ms` long.
module _ (from_ms step_ms : ℕ) (positive : 0 < step_ms) where
  -- One row of each bucket, the newest bucket first.
  abbrev pub OnePerBucket : List Row → Type 0
  OnePerBucket [] = Unit
  OnePerBucket (r ∷ rs) =
      All (λ q. bucket from_ms step_ms q < bucket from_ms step_ms r) rs × OnePerBucket rs

  -- A row of the same bucket that is not older.
  abbrev pub Stands : Row → Row → Type 0
  Stands r q = (bucket from_ms step_ms q ≡ bucket from_ms step_ms r) × (time r ≤ time q)

  bucket_mono : (q r : Row) → time q ≤ time r → bucket from_ms step_ms q ≤ bucket from_ms step_ms r
  bucket_mono (i, q) (j, r) h =
      div_mono (q.ts_ms - from_ms) (r.ts_ms - from_ms) step_ms positive (omega arith)

  first-below :
      (c : ℕ) (rs : List Row)
      → Descends rs
      → All (λ q. bucket from_ms step_ms q ≤ c) rs
      → All (λ q. bucket from_ms step_ms q < c) (first_of_buckets from_ms step_ms (some c) rs)
  unfolding first_of_buckets
  first-below c [] d h = tt
  first-below c (r ∷ rs) d h =
      let b = bucket from_ms step_ms r in
      let rest = first-below b rs d.1 (All-map (λ q. bucket_mono q r) rs d.0) in
      let later : All (λ q. bucket from_ms step_ms q < c)
          (first_of_buckets from_ms step_ms (some b) rs) =
        All-map (λ q (l : bucket from_ms step_ms q < b). <-≤-trans {y = b} l h.0)
          (first_of_buckets from_ms step_ms (some b) rs) rest in
      elim (Bool-cases (c == b)) [ inl e ↦ rw e later | inr e ↦ rw e (below c b h.0 e, later) ]

  first-OnePerBucket :
      (prev : Option ℕ) (rs : List Row)
      → Descends rs
      → OnePerBucket (first_of_buckets from_ms step_ms prev rs)
  unfolding first_of_buckets
  first-OnePerBucket prev [] d = tt
  first-OnePerBucket prev (r ∷ rs) d =
      let b = bucket from_ms step_ms r in
      let rest = first-OnePerBucket (some b) rs d.1 in
      elim (Bool-cases (is_bucket prev b)) [
        | inl e ↦ rw e rest
        | inr e ↦ rw e (first-below b rs d.1 (All-map (λ q. bucket_mono q r) rs d.0), rest)
      ]

  is_bucket_eq : (prev : Option ℕ) (b : ℕ) → is_bucket prev b ≡ true → prev ≡ some b
  is_bucket_eq none b e = cc
  is_bucket_eq (some c) b e = ap some ((==_iff c b).0 e)

  abbrev Met : Option ℕ → Row → List Row → List Row → Type 0
  Met prev r rs out =
      All (λ q. (prev ≡ some (bucket from_ms step_ms q)) ⊎ Any (Stands q) out) (r ∷ rs)

  -- Each row's bucket is that of the row before, or has a row that stands for it.
  first-Stands :
      (prev : Option ℕ) (rs : List Row)
      → Descends rs
      → All
          (λ r.
            (prev ≡ some (bucket from_ms step_ms r))
            ⊎ Any (Stands r) (first_of_buckets from_ms step_ms prev rs))
          rs
  unfolding first_of_buckets
  first-Stands prev [] d = tt
  first-Stands prev (r ∷ rs) d =
      let b = bucket from_ms step_ms r in
      let rest = first-Stands (some b) rs d.1 in
      elim (Bool-cases (is_bucket prev b)) [
        | inl e ↦
            let p = is_bucket_eq prev b e in
            let out : first_of_buckets from_ms step_ms prev (r ∷ rs)
                ≡ first_of_buckets from_ms step_ms (some b) rs =
              rw e refl in
            subst (Met prev r rs) (sym out) (inl p, All-map (λ q. onto p) rs rest)
        | inr e ↦
            let out : first_of_buckets from_ms step_ms prev (r ∷ rs)
                ≡ r ∷ first_of_buckets from_ms step_ms (some b) rs =
              rw e refl in
            subst (Met prev r rs) (sym out)
              (inr (inl (refl, ≤-refl)), All-map_both (λ q l. stood l) rs d.0 rest)
      ]
    where
      onto :
          {b c : ℕ} {p : Option ℕ} {A : Type 0}
          → p ≡ some b
          → (some b ≡ some c) ⊎ A
          → (p ≡ some c) ⊎ A
      onto e (inl m) = inl (e ∙ m)
      onto e (inr a) = inr a

      stood : {b c : ℕ} {L A M : Type 0} → L → (some b ≡ some c) ⊎ A → M ⊎ (((b ≡ c) × L) ⊎ A)
      stood l (inl m) = inr (inl (some_inj m, l))
      stood l (inr a) = inr (inr a)

  -- Without a limit, a window in buckets yields rows of the table that are of the battery and in the
  -- window, one per bucket with the newest bucket first, and for each such row of the table one of
  -- its bucket that is not older.
  pub select_samples-Thins :
      (bat_id to_ms : ℕ) (rs : List Row)
      → let page = select_samples bat_id from_ms to_ms none step_ms rs in
        OnePerBucket page
        × All (λ q. (in_window bat_id from_ms to_ms q ≡ true) × Any (λ r. q ≡ r) rs) page
        × All (λ r. in_window bat_id from_ms to_ms r ≡ true → Any (Stands r) page) rs
  unfolding select_samples
  select_samples-Thins bat_id to_ms rs =
      let kept = where_clause bat_id from_ms to_ms rs in
      let d = by_time-Descends kept in
      let P : Row → Type 0 = λ q. (in_window bat_id from_ms to_ms q ≡ true) × Any (λ r. q ≡ r) rs in
      let held = where_clause-All (λ q. Any (λ r. q ≡ r) rs) bat_id from_ms to_ms rs (self rs) in
      let both : All P kept =
        All-map_both (λ q e h. (e, h)) kept (where_clause-window bat_id from_ms to_ms rs) held in
      rw (lt→ltb 0 step_ms positive) (
        first-OnePerBucket none (by_time kept) d,
        first-All P from_ms step_ms none (by_time kept) (by_time-All P kept both),
        where_clause-All_inv
            (λ r. Any (Stands r) (first_of_buckets from_ms step_ms none (by_time kept))) bat_id
            from_ms to_ms rs
            (by_time-All_inv
              (λ r. Any (Stands r) (first_of_buckets from_ms step_ms none (by_time kept))) kept
              (All-map (λ r. stand) (by_time kept) (first-Stands none (by_time kept) d))),
      )
    where
      stand : {c : ℕ} {A : Type 0} → (none ≡ some c) ⊎ A → A
      stand (inl m) = cc
      stand (inr a) = a

      self : (rs : List Row) → All (λ q. Any (λ r. q ≡ r) rs) rs
      self [] = tt
      self (r ∷ rs) = (inl refl, All-map (λ q. inr) rs (self rs))
