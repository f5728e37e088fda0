-- ===== src/History/Opening.antt =====
-- The constructor of History, open_db and prepare_statements of src/history.cpp.
--
-- SQLite is a parameter: the outcome of each call. Busy time-outs and log lines are left out.
pub mod Outcomes
use bms_bridge.Base.{ℕ, List, [], ◌∷◌, Option, none, some, Bool, true, false, if◌then◌else◌, Bytes}
use bms_bridge.History.{History, load_battery_cache}

-- What is executed on opening, in the order of the constructors.
pub data Statement : Type 0 where
  journal_mode_wal : Statement
  synchronous_normal : Statement
  temp_store_memory : Statement
  foreign_keys_on : Statement
  schema : Statement

abbrev pub opening_statements : List Statement
opening_statements =
    journal_mode_wal ∷ synchronous_normal ∷ temp_store_memory ∷ foreign_keys_on ∷ schema ∷ []

pub data Prepared : Type 0 where
  insert_sample insert_cell : Prepared

pub record Opener (D : Type 0) : Type 0 where
  pub open_readwrite : Bytes → Option D
  pub exec : Statement → D → Bool × D
  pub select_batteries : D → Option (List (ℕ × Option Bytes))
  pub open_readonly : Bytes → D → Bool
  pub prepare : Prepared → D → Bool

-- What the constructor does: it throws, or has a history, and the read-only connection or none.
pub data Opened (D : Type 0) : Type 0 where
  cannot_open : Opened D
  cannot_execute : Statement → Opened D
  cannot_prepare : Prepared → Opened D
  opened : (reader : Bool) → History D → Opened D

module _ {D : Type 0} (O : Opener D) where
  -- The statements up to the first that fails, and that one.
  unfoldable pub execute : List Statement → D → Option Statement × D
  execute [] d = (none, d)
  execute (s ∷ ss) d =
      let (done, e) = O.exec s d in let rest = execute ss e in if done then rest else (some s, e)

  -- The cache stays empty when its SELECT cannot be prepared.
  abbrev pub cache_of : Option (List (ℕ × Option Bytes)) → List (Bytes × ℕ)
  cache_of none = []
  cache_of (some rows) = load_battery_cache rows []

  unfoldable pub history_over : (ram_window : ℕ) → D → History D
  unfolding load_battery_cache
  history_over ram_window d = record {
    ram = [];
    ram_window = ram_window;
    names = cache_of (O.select_batteries d);
    db = d;
  }

  unfoldable pub prepare_statements : (ram_window : ℕ) → (reader : Bool) → D → Opened D
  unfolding history_over
  prepare_statements ram_window reader d =
      if O.prepare insert_sample d
      then (if O.prepare insert_cell d
          then opened reader (history_over ram_window d)
          else cannot_prepare insert_cell)
      else cannot_prepare insert_sample

  unfoldable pub behind_statements : Bytes → (ram_window : ℕ) → Option Statement × D → Opened D
  unfolding prepare_statements
  behind_statements path ram_window (some s, d) = cannot_execute s
  behind_statements path ram_window (none, d) =
      prepare_statements ram_window (O.open_readonly path d) d

  unfoldable pub open_db : Bytes → (ram_window : ℕ) → D → Opened D
  open_db path ram_window d = behind_statements path ram_window (execute opening_statements d)

  unfoldable pub open_history : Bytes → (ram_window : ℕ) → Opened D
  unfolding open_db
  open_history path ram_window = elim (O.open_readwrite path) [
    | none ↦ cannot_open
    | some d ↦ open_db path ram_window d
  ]
