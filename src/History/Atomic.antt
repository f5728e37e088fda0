-- ===== src/History/Atomic.antt =====
-- A sample is stored with all its cells, or not at all.
use bms_bridge.Base.{
  ℕ, ◌≡◌, ◌≢◌, ◌⊎◌, inl, inr, refl, sym, ap, subst, ◌∙◌, List, [], ◌∷◌, none, Option-cases, Bool,
  true, false, Bool-cases, Bytes, if◌then◌else◌,
}
use bms_bridge.Jk.Types.{JkCellInfo, JkPackInfo}
use bms_bridge.History.Rows.{TelemetrySample, SampleRow, CellRow, sample_row, cell_rows}
use bms_bridge.History.{
  Sqlite, History, resolve, battery_row_id, insert_cells, finish, store, append, cached,
  keep_in_ram,
}
use bms_bridge.History.Transactions.{
  Tables, add_sample, add_cell, add_cells, IsTransactional, Succeeds,
}

module _ {D : Type 0} (S : Sqlite D) (T : IsTransactional S) where
  -- The tables behind a store: as they were, or with the sample and all its cells.
  abbrev pub Whole : SampleRow → List CellRow → Tables → Tables → Type 0
  Whole row cs before after = (id : ℕ) × (after ≡ add_cells id cs (add_sample id row before))

  -- The insertion of the cells in a transaction, by its result.
  abbrev Inserted : ℕ → List CellRow → D → Bool × D → Type 0
  Inserted id cs d (true, e) =
      (T.committed e ≡ T.committed d)
      × (T.current e ≡ add_cells id cs (T.current d))
      × (T.in_transaction e ≡ true)
  Inserted id cs d (false, e) = T.committed e ≡ T.committed d

  Inserted-cons :
      (id : ℕ) (c : CellRow) (cs : List CellRow) (d e : D) (r : Bool × D)
      → T.committed e ≡ T.committed d
      → T.current e ≡ add_cell id c (T.current d)
      → Inserted id cs e r
      → Inserted id (c ∷ cs) d r
  Inserted-cons id c cs d e (true, f) same sees (k, v, t) =
      (k ∙ same, v ∙ ap (add_cells id cs) sees, t)
  Inserted-cons id c cs d e (false, f) same sees k = k ∙ same

  insert_cells-Inserted :
      (id : ℕ) (cs : List CellRow) (d : D)
      → T.in_transaction d ≡ true
      → Inserted id cs d (insert_cells S id cs d)
  unfolding insert_cells
  insert_cells-Inserted id [] d t = (refl, refl, t)
  insert_cells-Inserted id (c ∷ cs) d t = elim (Bool-cases (S.insert_cell id c d).0) [
    | inl e ↦
        let (same, sees, stays) = T.cell_ok id c d t e in
        let later = insert_cells-Inserted id cs (S.insert_cell id c d).1 stays in
        rw e (Inserted-cons id c cs d _ _ same sees later)
    | inr e ↦ rw e (T.cell_fails id c d t e)
  ]

  -- The end of a store: the transaction is over, and its rows are committed or dropped.
  abbrev Ended : ℕ → List CellRow → D → D → Type 0
  Ended id cs d f =
      ((T.committed f ≡ T.committed d) ⊎ (T.committed f ≡ add_cells id cs (T.current d)))
      × (T.in_transaction f ≡ false)

  rolled_back :
      (d e : D)
      → T.committed e ≡ T.committed d
      → (T.committed (S.rollback e) ≡ T.committed d) × (T.in_transaction (S.rollback e) ≡ false)
  rolled_back d e k = let (same, over) = T.rollback e in (same ∙ k, over)

  finish-Ended :
      (id : ℕ) (cs : List CellRow) (d : D)
      → T.in_transaction d ≡ true
      → Ended id cs d (finish S id cs d)
  unfolding finish
  finish-Ended id cs d t = go (insert_cells S id cs d) (insert_cells-Inserted id cs d t)
    where
      committing :
          (e : D)
          → Inserted id cs d (true, e)
          → Ended id cs d (let (committed, f) = S.commit e in if committed then f else S.rollback f)
      committing e (same, sees, stays) = elim (Bool-cases (S.commit e).0) [
        | inl k ↦ rw k (inr ((T.commit_ok e stays k).0 ∙ sees), (T.commit_ok e stays k).1)
        | inr k ↦
            let (c, o) = rolled_back d (S.commit e).1 (T.commit_fails e stays k ∙ same) in
            rw k (inl c, o)
      ]

      go :
          (r : Bool × D)
          → Inserted id cs d r
          → Ended id cs d (
              if r.0
              then (let (committed, f) = S.commit r.1 in if committed then f else S.rollback f)
              else S.rollback r.1)
      go (true, e) v = committing e v
      go (false, e) v = let (c, o) = rolled_back d e v in (inl c, o)

  -- What a store does to the tables, from a connection without a transaction to one.
  abbrev pub Stored : SampleRow → List CellRow → D → D → Type 0
  Stored row cs d f =
      ((T.committed f ≡ T.committed d) ⊎ Whole row cs (T.committed d) (T.committed f))
      × (T.in_transaction f ≡ false)

  store-Stored :
      (row : SampleRow) (cs : List CellRow) (d : D)
      → T.in_transaction d ≡ false
      → Stored row cs d (store S row cs d)
  unfolding store
  store-Stored row cs d o = elim (Bool-cases (S.begin d).0) [
    | inr b ↦ let (same, over) = T.begin_fails d o b in rw b (inl same, over)
    | inl b ↦
        let e = (S.begin d).1 in
        let (same, sees, stays) = T.begin_ok d o b in
        elim (Option-cases (S.insert_sample row e).0) [
          | inl n ↦
              let (c, over) =
                rolled_back d (S.insert_sample row e).1 (T.sample_fails row e stays n ∙ same) in
              rw (b, n) (inl c, over)
          | inr (id, n) ↦
              let (kept, added, on) = T.sample_ok row id e stays n in
              let (c, over) = finish-Ended id cs (S.insert_sample row e).1 on in
              rw (b, n)
                (
                  elim c [
                    | inl k ↦ inl (k ∙ kept ∙ same)
                    | inr k ↦
                        inr (id, k ∙ ap (add_cells id cs) (added ∙ ap (add_sample id row) sees))
                  ],
                  over,
                )
        ]
  ]

  insert_cells-true :
      (W : Succeeds S) (id : ℕ) (cs : List CellRow) (d : D) → (insert_cells S id cs d).0 ≡ true
  unfolding insert_cells
  insert_cells-true W id [] d = refl
  insert_cells-true W id (c ∷ cs) d =
      rw (W.inserts_cell id c d) (insert_cells-true W id cs (S.insert_cell id c d).1)

  finish-Whole :
      (W : Succeeds S) (id : ℕ) (cs : List CellRow) (d : D)
      → T.in_transaction d ≡ true
      → T.committed (finish S id cs d) ≡ add_cells id cs (T.current d)
  unfolding finish
  finish-Whole W id cs d t =
      go (insert_cells S id cs d) (insert_cells-Inserted id cs d t) (insert_cells-true W id cs d)
    where
      go :
          (r : Bool × D)
          → Inserted id cs d r
          → r.0 ≡ true
          → T.committed (
              if r.0
              then (let (committed, f) = S.commit r.1 in if committed then f else S.rollback f)
              else S.rollback r.1)
            ≡ add_cells id cs (T.current d)
      go (true, e) (same, sees, stays) q =
          rw (W.commits e) ((T.commit_ok e stays (W.commits e)).0 ∙ sees)
      go (false, e) v q = cc

  store-Whole :
      (W : Succeeds S) (row : SampleRow) (cs : List CellRow) (d : D)
      → T.in_transaction d ≡ false
      → Whole row cs (T.committed d) (T.committed (store S row cs d))
  unfolding store
  store-Whole W row cs d o =
      let b = W.begins d in
      let e = (S.begin d).1 in
      let (same, sees, stays) = T.begin_ok d o b in
      let (id, n) = W.inserts row e in
      let (kept, added, on) = T.sample_ok row id e stays n in
      rw (b, n)
        (
          id,
          finish-Whole W id cs (S.insert_sample row e).1 on
              ∙ ap (add_cells id cs) (added ∙ ap (add_sample id row) sees),
        )

  resolve-Same :
      (create : Bool) (name : Bytes) (d : D)
      → let e = (resolve S create name d).1 in
        (T.committed e ≡ T.committed d) × (T.in_transaction e ≡ T.in_transaction d)
  unfolding resolve
  resolve-Same create name d = elim (Option-cases (S.find_battery name d)) [
    | inl e ↦ rw (e, resolve) (created create)
    | inr (id, e) ↦ rw (e, resolve) (refl, refl)
  ]
    where
      created :
          (b : Bool)
          → let e = (if b then S.insert_battery name d else (none, d)).1 in
            (T.committed e ≡ T.committed d) × (T.in_transaction e ≡ T.in_transaction d)
      created true = T.insert_battery name d
      created false = (refl, refl)

  row_id-Same :
      (create : Bool) (name : Bytes) (h : History D)
      → let e = (battery_row_id S create name h).1.db in
        (T.committed e ≡ T.committed h.db) × (T.in_transaction e ≡ T.in_transaction h.db)
  unfolding battery_row_id
  row_id-Same create name h = elim (Option-cases (cached name h.names)) [
    | inl e ↦ rw (e, battery_row_id) (resolve-Same create name h.db)
    | inr (id, e) ↦ rw (e, battery_row_id) (refl, refl)
  ]

  row_id-any_ram :
      (create : Bool) (name : Bytes) (h : History D) (ram : List TelemetrySample)
      → (battery_row_id S create name (record h { ram = ram })).0
        ≡ (battery_row_id S create name h).0
  unfolding battery_row_id
  row_id-any_ram create name h ram = elim (Option-cases (cached name h.names)) [
    | inl e ↦ rw (e, battery_row_id) refl
    | inr (id, e) ↦ rw (e, battery_row_id) refl
  ]

  -- The tables behind an append.
  abbrev pub Appended : ℕ → JkCellInfo → JkPackInfo → D → D → Type 0
  Appended ts cells pack d f =
      (bat_id : ℕ) × Whole (sample_row bat_id ts cells pack) (cell_rows cells) (T.committed d)
        (T.committed f)

  Whole-from :
      (row : SampleRow) (cs : List CellRow) (t u v : Tables)
      → t ≡ u
      → Whole row cs t v
      → Whole row cs u v
  Whole-from row cs t u v e w = subst (λ x. Whole row cs x v) e w

  -- On a database with SQLite's transactions, and none open: an append leaves none open, and what is
  -- committed is as it was, or has one sample more, with all its cells, and nothing else; and when
  -- the battery's id is found or created and no statement fails, it has the sample.
  pub append-Appended :
      (now : ℕ) (name : Bytes) (ts : ℕ) (cells : JkCellInfo) (pack : JkPackInfo) (h : History D)
      → T.in_transaction h.db ≡ false
      → let k = append S now name ts cells pack h in
        (T.in_transaction k.db ≡ false)
        × ((T.committed k.db ≡ T.committed h.db) ⊎ Appended ts cells pack h.db k.db)
        × (Succeeds S → (battery_row_id S true name h).0 ≢ none → Appended ts cells pack h.db k.db)
  unfolding append
  append-Appended now name ts cells pack h o =
      let s : TelemetrySample = record { battery_id = name; ts = ts; cells = cells; pack = pack } in
      let kept : History D = record h { ram = keep_in_ram now h.ram_window s h.ram } in
      let (same, over) = row_id-Same true name kept in
      let d = (battery_row_id S true name kept).1.db in
      elim (Option-cases (battery_row_id S true name kept).0) [
        | inl e ↦
            rw (e, append)
              (
                over ∙ o,
                inl same,
                (λ w n. absurd (n (sym (row_id-any_ram true name h kept.ram) ∙ e))),
              )
        | inr (id, e) ↦
            let row = sample_row id ts cells pack in
            let cs = cell_rows cells in
            let (c, closed) = store-Stored row cs d (over ∙ o) in
            rw (e, append)
              (
                closed,
                elim c [
                  | inl k ↦ inl (k ∙ same)
                  | inr k ↦ inr (id, Whole-from row cs _ _ _ same k)
                ],
                (λ w n. (id, Whole-from row cs _ _ _ same (store-Whole w row cs d (over ∙ o)))),
              )
      ]
