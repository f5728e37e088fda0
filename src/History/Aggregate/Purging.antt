-- ===== src/History/Aggregate/Purging.antt =====
-- What the aggregation leaves of the raw samples.
use bms_bridge.Base.{
  ℕ, ◌+◌, ◌≡◌, ◌⊎◌, refl, ap, ◌∙◌, List, [], ◌∷◌, Option, none, some, Option-cases, inl, inr, Bool,
  true, false, Bool-cases, ltb, if◌then◌else◌, Bytes,
}
use bms_bridge.History.{Sqlite}
use bms_bridge.History.Rows.{SampleRow}
use bms_bridge.History.Transactions.{Tables, IsTransactional}
use bms_bridge.History.Aggregate.{
  Doubles, DailyStore, day_ms, today_of, purge_of, integrate, close_day, write_day, aggregate_day,
  aggregate_days, aggregate_pending,
}

-- The rows whose time is the cutoff or later.
abbrev pub since : ℕ → List (ℕ × SampleRow) → List (ℕ × SampleRow)
since cutoff [] = []
since cutoff ((id, r) ∷ rs) =
    let rest = since cutoff rs in if ltb r.ts_ms cutoff then rest else (id, r) ∷ rest

-- What SQLite documents of the statements: a row of daily_energy changes no sample, and the DELETE
-- outside a transaction is committed at once.
pub record IsDailyStore {D F : Type 0} (S : Sqlite D) (T : IsTransactional S) (Y : DailyStore D F)
    : Type 0 where
  pub insert_ok :
      (bat_id : ℕ) (date : Bytes) (charged discharged : F) (d : D)
      → T.in_transaction d ≡ true
      → let r = Y.insert_daily bat_id date charged discharged d in
        r.0 ≡ true
        → (T.committed r.1 ≡ T.committed d)
          × (T.current r.1 ≡ T.current d)
          × (T.in_transaction r.1 ≡ true)
  pub insert_fails :
      (bat_id : ℕ) (date : Bytes) (charged discharged : F) (d : D)
      → T.in_transaction d ≡ true
      → let r = Y.insert_daily bat_id date charged discharged d in
        r.0 ≡ false → T.committed r.1 ≡ T.committed d
  pub delete_ok :
      (cutoff : ℕ) (d : D)
      → T.in_transaction d ≡ false
      → (Y.delete_before cutoff d).0 ≡ true
      → (T.committed (Y.delete_before cutoff d).1).samples ≡ since cutoff (T.committed d).samples
  pub delete_fails :
      (cutoff : ℕ) (d : D)
      → T.in_transaction d ≡ false
      → (Y.delete_before cutoff d).0 ≡ false
      → T.committed (Y.delete_before cutoff d).1 ≡ T.committed d

module _ {D F : Type 0} (S : Sqlite D) (T : IsTransactional S) (Y : DailyStore D F) (N : Doubles F)
    (W : IsDailyStore S T Y) where
  -- The samples are as they were, and no transaction is open.
  abbrev Kept : D → D → Type 0
  Kept d e = (T.committed e ≡ T.committed d) × (T.in_transaction e ≡ false)

  rollback-Kept : (d e : D) → T.committed e ≡ T.committed d → Kept d (S.rollback e)
  rollback-Kept d e k = let (same, over) = T.rollback e in (same ∙ k, over)

  commit-Kept :
      (d e : D)
      → T.committed e ≡ T.committed d
      → T.current e ≡ T.committed d
      → T.in_transaction e ≡ true
      → Kept d (close_day S Y N (true, e))
  unfolding close_day
  commit-Kept d e same sees on = elim (Bool-cases (S.commit e).0) [
    | inl k ↦ let (c, over) = T.commit_ok e on k in rw k (c ∙ sees, over)
    | inr k ↦ rw k (rollback-Kept d (S.commit e).1 (T.commit_fails e on k ∙ same))
  ]

  write_day-Kept :
      (bat_id : ℕ) (date : Bytes) (wh : F × F) (d : D)
      → T.in_transaction d ≡ false
      → Kept d (write_day S Y N bat_id date wh d)
  unfolding write_day
  write_day-Kept bat_id date (charged, discharged) d o =
      let e = (S.begin d).1 in
      let r = Y.insert_daily bat_id date charged discharged e in
      elim (Bool-cases (S.begin d).0) [
        | inr b ↦ rw b (T.begin_fails d o b)
        | inl b ↦
            let (same, sees, on) = T.begin_ok d o b in
            rw b (
              closed d e r same (Bool-cases r.0)
                (λ k.
                  let (c, v, stays) = W.insert_ok bat_id date charged discharged e on k in
                  (c ∙ same, v ∙ sees, stays))
                (λ k. W.insert_fails bat_id date charged discharged e on k ∙ same))
      ]
    where
      closed :
          (d e : D) (r : Bool × D)
          → T.committed e ≡ T.committed d
          → (r.0 ≡ true) ⊎ (r.0 ≡ false)
          → (r.0 ≡ true
              → (T.committed r.1 ≡ T.committed d)
                × (T.current r.1 ≡ T.committed d)
                × (T.in_transaction r.1 ≡ true))
          → (r.0 ≡ false → T.committed r.1 ≡ T.committed d)
          → Kept d (close_day S Y N r)
      closed d e (true, f) same c ok fails = let (k, v, on) = ok refl in commit-Kept d f k v on
      closed d e (false, f) same c ok fails = rollback-Kept d f (fails refl)

  aggregate_day-Kept :
      (day_start : Bytes → ℕ) (p : ℕ × Bytes) (d : D)
      → T.in_transaction d ≡ false
      → Kept d (aggregate_day S Y N day_start p d)
  unfolding aggregate_day
  aggregate_day-Kept day_start (bat_id, date) d o =
      let start = day_start date in
      elim (Option-cases (Y.get_samples bat_id start (start + day_ms) d)) [
        | inl e ↦ rw (e, aggregate_day) (refl, o)
        | inr (rows, e) ↦ rw (e, aggregate_day) (write_day-Kept bat_id date (integrate N rows) d o)
      ]

  aggregate_days-Kept :
      (day_start : Bytes → ℕ) (ps : List (ℕ × Bytes)) (d : D)
      → T.in_transaction d ≡ false
      → Kept d (aggregate_days S Y N day_start ps d)
  unfolding aggregate_days
  aggregate_days-Kept day_start [] d o = (refl, o)
  aggregate_days-Kept day_start (p ∷ ps) d o =
      let (same, over) = aggregate_day-Kept day_start p d o in
      let (later, quiet) =
        aggregate_days-Kept day_start ps (aggregate_day S Y N day_start p d) over in
      (later ∙ same, quiet)

  -- The committed samples behind the aggregation.
  abbrev pub left_by : (day_start : Bytes → ℕ) (now_ms : ℕ) → D → List (ℕ × SampleRow)
  left_by day_start now_ms d = (T.committed (aggregate_pending S Y N day_start now_ms d)).samples

  -- The samples behind the aggregation, by what the search finds.
  abbrev after_search : (day_start : Bytes → ℕ) (now_ms : ℕ) → D → Option (List (ℕ × Bytes)) → D
  after_search day_start now_ms d none = d
  after_search day_start now_ms d (some []) = d
  after_search day_start now_ms d (some (p ∷ ps)) =
      (Y.delete_before (purge_of now_ms) (aggregate_days S Y N day_start (p ∷ ps) d)).1

  left_by-search :
      (day_start : Bytes → ℕ) (now_ms : ℕ) (d : D) {found : Option (List (ℕ × Bytes))}
      → Y.find_pending (today_of now_ms) d ≡ found
      → left_by day_start now_ms d ≡ (T.committed (after_search day_start now_ms d found)).samples
  unfolding aggregate_pending
  left_by-search day_start now_ms d e =
      ap (λ f. (T.committed (after_search day_start now_ms d f)).samples) e

  -- On a database with SQLite's transactions, and none open: when no past day is pending, or the
  -- search fails, the aggregation deletes no sample, however old; when one is pending, and whatever
  -- becomes of its energy, it deletes exactly the samples older than eight days before the current
  -- UTC day, or none where the DELETE fails.
  pub aggregate_pending-since :
      (day_start : Bytes → ℕ) (now_ms : ℕ) (d : D)
      → T.in_transaction d ≡ false
      → (Y.find_pending (today_of now_ms) d ≡ none
          → left_by day_start now_ms d ≡ (T.committed d).samples)
        × (Y.find_pending (today_of now_ms) d ≡ some []
            → left_by day_start now_ms d ≡ (T.committed d).samples)
        × ((p : ℕ × Bytes) (ps : List (ℕ × Bytes))
            → Y.find_pending (today_of now_ms) d ≡ some (p ∷ ps)
            → let last = aggregate_days S Y N day_start (p ∷ ps) d in
              ((Y.delete_before (purge_of now_ms) last).0 ≡ true
                → left_by day_start now_ms d ≡ since (purge_of now_ms) (T.committed d).samples)
              × ((Y.delete_before (purge_of now_ms) last).0 ≡ false
                  → left_by day_start now_ms d ≡ (T.committed d).samples))
  aggregate_pending-since day_start now_ms d o = (
    (λ e. left_by-search day_start now_ms d e),
    (λ e. left_by-search day_start now_ms d e),
    (λ p ps e.
        let last = aggregate_days S Y N day_start (p ∷ ps) d in
        let (same, over) = aggregate_days-Kept day_start (p ∷ ps) d o in
        (
          (λ k.
              left_by-search day_start now_ms d e
              ∙ W.delete_ok (purge_of now_ms) last over k
              ∙ ap (λ (t : Tables). since (purge_of now_ms) t.samples) same),
          (λ k.
              left_by-search day_start now_ms d e
              ∙ ap (λ (t : Tables). t.samples)
                  (W.delete_fails (purge_of now_ms) last over k ∙ same)),
        )),
  )
