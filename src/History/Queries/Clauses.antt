-- ===== src/History/Queries/Clauses.antt =====
-- What the clauses of the SELECTs keep of the rows, and their order.
use bms_bridge.Base.{
  ℕ, zero, suc, ◌≤◌, ◌≡◌, List, [], ◌∷◌, Option, none, some, true, false, Bool-cases, inl, inr, leb,
  take, All, All-map, arith,
}
use bms_bridge.History.Queries.{
  Row, in_window, where_clause, insert_by_time, by_time, bucket, is_bucket, first_of_buckets,
  limited,
}

abbrev pub time : Row → ℕ
time r = r.1.ts_ms

-- The newest first.
abbrev pub Descends : List Row → Type 0
Descends [] = Unit
Descends (r ∷ rs) = All (λ q. time q ≤ time r) rs × Descends rs

-- Whatever holds of all rows holds of the rows that the clauses keep.
module _ (P : Row → Type 0) where
  pub where_clause-All :
      (bat_id from_ms to_ms : ℕ) (rs : List Row)
      → All P rs
      → All P (where_clause bat_id from_ms to_ms rs)
  unfolding where_clause
  where_clause-All bat_id from_ms to_ms [] h = tt
  where_clause-All bat_id from_ms to_ms (r ∷ rs) h =
      let rest = where_clause-All bat_id from_ms to_ms rs h.1 in
      elim (Bool-cases (in_window bat_id from_ms to_ms r)) [
        | inl e ↦ rw e (h.0, rest)
        | inr e ↦ rw e rest
      ]

  insert_by_time-All : (r : Row) (rs : List Row) → P r → All P rs → All P (insert_by_time r rs)
  unfolding insert_by_time
  insert_by_time-All r [] p h = (p, tt)
  insert_by_time-All (i, r) ((j, q) ∷ rest) p h = elim (Bool-cases (leb q.ts_ms r.ts_ms)) [
    | inl e ↦ rw e (p, h)
    | inr e ↦ rw e (h.0, insert_by_time-All (i, r) rest p h.1)
  ]

  pub by_time-All : (rs : List Row) → All P rs → All P (by_time rs)
  unfolding by_time
  by_time-All [] h = tt
  by_time-All (r ∷ rs) h = insert_by_time-All r (by_time rs) h.0 (by_time-All rs h.1)

  pub first-All :
      (from_ms step_ms : ℕ) (prev : Option ℕ) (rs : List Row)
      → All P rs
      → All P (first_of_buckets from_ms step_ms prev rs)
  unfolding first_of_buckets
  first-All from_ms step_ms prev [] h = tt
  first-All from_ms step_ms prev (r ∷ rs) h =
      let rest = first-All from_ms step_ms (some (bucket from_ms step_ms r)) rs h.1 in
      elim (Bool-cases (is_bucket prev (bucket from_ms step_ms r))) [
        | inl e ↦ rw e rest
        | inr e ↦ rw e (h.0, rest)
      ]

  take-All : (n : ℕ) (rs : List Row) → All P rs → All P (take n rs)
  take-All zero rs h = tt
  take-All (suc n) [] h = tt
  take-All (suc n) (r ∷ rs) h = (h.0, take-All n rs h.1)

  pub limited-All : (limit : Option ℕ) (rs : List Row) → All P rs → All P (limited limit rs)
  limited-All none rs h = h
  limited-All (some n) rs h = take-All n rs h

  -- What holds of all sorted rows holds of the rows.
  insert_by_time-All_inv : (r : Row) (rs : List Row) → All P (insert_by_time r rs) → P r × All P rs
  unfolding insert_by_time
  insert_by_time-All_inv r [] h = h
  insert_by_time-All_inv (i, r) ((j, q) ∷ rest) h = elim (Bool-cases (leb q.ts_ms r.ts_ms)) [
    | inl e ↦ rw e at h
    | inr e ↦
        let k : P (j, q) × All P (insert_by_time (i, r) rest) = rw e at h in
        let l = insert_by_time-All_inv (i, r) rest k.1 in (l.0, (k.0, l.1))
  ]

  pub by_time-All_inv : (rs : List Row) → All P (by_time rs) → All P rs
  unfolding by_time
  by_time-All_inv [] h = tt
  by_time-All_inv (r ∷ rs) h =
      let k = insert_by_time-All_inv r (by_time rs) h in (k.0, by_time-All_inv rs k.1)

  pub where_clause-All_inv :
      (bat_id from_ms to_ms : ℕ) (rs : List Row)
      → All P (where_clause bat_id from_ms to_ms rs)
      → All (λ r. in_window bat_id from_ms to_ms r ≡ true → P r) rs
  unfolding where_clause
  where_clause-All_inv bat_id from_ms to_ms [] h = tt
  where_clause-All_inv bat_id from_ms to_ms (r ∷ rs) h =
      elim (Bool-cases (in_window bat_id from_ms to_ms r)) [
        | inl e ↦
            let k : P r × All P (where_clause bat_id from_ms to_ms rs) = rw e at h in
            (λ t. k.0, where_clause-All_inv bat_id from_ms to_ms rs k.1)
        | inr e ↦ (λ t. cc, where_clause-All_inv bat_id from_ms to_ms rs (rw e at h))
      ]

pub where_clause-window :
    (bat_id from_ms to_ms : ℕ) (rs : List Row)
    → All (λ r. in_window bat_id from_ms to_ms r ≡ true) (where_clause bat_id from_ms to_ms rs)
unfolding where_clause
where_clause-window bat_id from_ms to_ms [] = tt
where_clause-window bat_id from_ms to_ms (r ∷ rs) =
    let rest = where_clause-window bat_id from_ms to_ms rs in
    elim (Bool-cases (in_window bat_id from_ms to_ms r)) [
      | inl e ↦ rw e (e, rest)
      | inr e ↦ rw e rest
    ]

leb→le : (a b : ℕ) → leb a b ≡ true → a ≤ b
leb→le a b e = ground arith

leb→gt : (a b : ℕ) → leb a b ≡ false → b ≤ a
leb→gt a b e = ground arith

insert_by_time-Descends : (r : Row) (rs : List Row) → Descends rs → Descends (insert_by_time r rs)
unfolding insert_by_time
insert_by_time-Descends r [] d = (tt, tt)
insert_by_time-Descends (i, r) ((j, q) ∷ rest) d = elim (Bool-cases (leb q.ts_ms r.ts_ms)) [
  | inl e ↦
      let l = leb→le q.ts_ms r.ts_ms e in
      rw e ((l, All-map (λ p (m : p.1.ts_ms ≤ q.ts_ms). omega arith) rest d.0), d)
  | inr e ↦ rw e (
    insert_by_time-All (λ p. time p ≤ q.ts_ms) (i, r) rest (leb→gt q.ts_ms r.ts_ms e) d.0,
    insert_by_time-Descends (i, r) rest d.1,
  )
]

pub by_time-Descends : (rs : List Row) → Descends (by_time rs)
unfolding by_time
by_time-Descends [] = tt
by_time-Descends (r ∷ rs) = insert_by_time-Descends r (by_time rs) (by_time-Descends rs)

take-Descends : (n : ℕ) (rs : List Row) → Descends rs → Descends (take n rs)
take-Descends zero rs d = tt
take-Descends (suc n) [] d = tt
take-Descends (suc n) (r ∷ rs) d =
    (take-All (λ q. time q ≤ time r) n rs d.0, take-Descends n rs d.1)

pub limited-Descends :
    (limit : Option ℕ) (rs : List Row) → Descends rs → Descends (limited limit rs)
limited-Descends none rs d = d
limited-Descends (some n) rs d = take-Descends n rs d

pub first-Descends :
    (from_ms step_ms : ℕ) (prev : Option ℕ) (rs : List Row)
    → Descends rs
    → Descends (first_of_buckets from_ms step_ms prev rs)
unfolding first_of_buckets
first-Descends from_ms step_ms prev [] d = tt
first-Descends from_ms step_ms prev (r ∷ rs) d =
    let b = bucket from_ms step_ms r in
    let rest = first-Descends from_ms step_ms (some b) rs d.1 in
    elim (Bool-cases (is_bucket prev b)) [
      | inl e ↦ rw e rest
      | inr e ↦ rw e (first-All (λ q. time q ≤ time r) from_ms step_ms (some b) rs d.0, rest)
    ]
