-- ===== src/History/Transactions.antt =====
-- What SQLite documents of transactions over the tables of the history.
use bms_bridge.Base.{ℕ, ◌≡◌, List, [], ◌∷◌, none, some, Bool, true, false, Bytes}
use bms_bridge.History.Rows.{SampleRow, CellRow}
use bms_bridge.History.{Sqlite}

-- The rows of the two tables, each sample with its id.
pub record Tables : Type 0 where
  pub samples : List (ℕ × SampleRow)
  pub cells : List (ℕ × CellRow)

abbrev pub add_sample : ℕ → SampleRow → Tables → Tables
add_sample id row t = record t { samples = (id, row) ∷ t.samples }

abbrev pub add_cell : ℕ → CellRow → Tables → Tables
add_cell id c t = record t { cells = (id, c) ∷ t.cells }

abbrev pub add_cells : ℕ → List CellRow → Tables → Tables
add_cells id [] t = t
add_cells id (c ∷ cs) t = add_cells id cs (add_cell id c t)

-- What SQLite documents of transactions, for what is committed and for what the connection sees.
-- Outside a transaction they are the same. A statement that fails changes nothing that is committed,
-- and may or may not end the transaction.
pub record IsTransactional {D : Type 0} (S : Sqlite D) : Type 0 where
  pub committed : D → Tables
  pub current : D → Tables
  pub in_transaction : D → Bool
  pub begin_ok :
      (d : D)
      → in_transaction d ≡ false
      → (S.begin d).0 ≡ true
      → (committed (S.begin d).1 ≡ committed d)
        × (current (S.begin d).1 ≡ committed d)
        × (in_transaction (S.begin d).1 ≡ true)
  pub begin_fails :
      (d : D)
      → in_transaction d ≡ false
      → (S.begin d).0 ≡ false
      → (committed (S.begin d).1 ≡ committed d) × (in_transaction (S.begin d).1 ≡ false)
  pub sample_ok :
      (row : SampleRow) (id : ℕ) (d : D)
      → in_transaction d ≡ true
      → (S.insert_sample row d).0 ≡ some id
      → (committed (S.insert_sample row d).1 ≡ committed d)
        × (current (S.insert_sample row d).1 ≡ add_sample id row (current d))
        × (in_transaction (S.insert_sample row d).1 ≡ true)
  pub sample_fails :
      (row : SampleRow) (d : D)
      → in_transaction d ≡ true
      → (S.insert_sample row d).0 ≡ none
      → committed (S.insert_sample row d).1 ≡ committed d
  pub cell_ok :
      (id : ℕ) (c : CellRow) (d : D)
      → in_transaction d ≡ true
      → (S.insert_cell id c d).0 ≡ true
      → (committed (S.insert_cell id c d).1 ≡ committed d)
        × (current (S.insert_cell id c d).1 ≡ add_cell id c (current d))
        × (in_transaction (S.insert_cell id c d).1 ≡ true)
  pub cell_fails :
      (id : ℕ) (c : CellRow) (d : D)
      → in_transaction d ≡ true
      → (S.insert_cell id c d).0 ≡ false
      → committed (S.insert_cell id c d).1 ≡ committed d
  pub commit_ok :
      (d : D)
      → in_transaction d ≡ true
      → (S.commit d).0 ≡ true
      → (committed (S.commit d).1 ≡ current d) × (in_transaction (S.commit d).1 ≡ false)
  pub commit_fails :
      (d : D)
      → in_transaction d ≡ true
      → (S.commit d).0 ≡ false
      → committed (S.commit d).1 ≡ committed d
  pub rollback :
      (d : D) → (committed (S.rollback d) ≡ committed d) × (in_transaction (S.rollback d) ≡ false)
  pub insert_battery :
      (name : Bytes) (d : D)
      → (committed (S.insert_battery name d).1 ≡ committed d)
        × (in_transaction (S.insert_battery name d).1 ≡ in_transaction d)

-- No statement fails.
pub record Succeeds {D : Type 0} (S : Sqlite D) : Type 0 where
  pub begins : (d : D) → (S.begin d).0 ≡ true
  pub inserts : (row : SampleRow) (d : D) → (id : ℕ) × ((S.insert_sample row d).0 ≡ some id)
  pub inserts_cell : (id : ℕ) (c : CellRow) (d : D) → (S.insert_cell id c d).0 ≡ true
  pub commits : (d : D) → (S.commit d).0 ≡ true
