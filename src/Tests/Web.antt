-- ===== src/Tests/Web.antt =====
-- Requests to the web server.
use bms_bridge.Base.{
  ℕ, ◌<◌, ◌≤◌, ◌≡◌, refl, List, [], ◌∷◌, none, some, true, false, ltb, leb, ◌&&◌, if◌then◌else◌,
  Bytes, All, same_name, subst, some_inj, replicate, length-replicate, arith,
}
use bms_bridge.Jk.Types.{JkPackInfo, JkSettings}
use bms_bridge.History.{History, battery_name}
use bms_bridge.History.Rows.{SampleRow, CellRow, sample_row}
use bms_bridge.History.Range.{Reader, IsSelect, Within, Newest}
use bms_bridge.Http.Pages.{PageCtx, Contexts, page, page_of, handle_history_next}
use bms_bridge.Http.Pages.Backwards.{GoesOn, next-GoesOn, follow, follow-ends}
use bms_bridge.Http.Files.{
  FileSystem, html, serve_file, serve_resolved, mime_for_ext, extension, mime_of, ServedFrom,
  serve_file-ServedFrom,
}
use bms_bridge.Http.Info.{
  with_name, handle_info, reserve_info, settings_info, no_settings_yet, handle_info-inverter,
}
use bms_bridge.Battery.State.{snapshot}
use bms_bridge.Inverter.{reserve_pack, reserve_limits}
use bms_bridge.Tests.{cells, pack, reserve_battery, batteries}

-- A database that is its rows, newest first. The step is not looked at.
abbrev Rows : Type 0
Rows = List (SampleRow × List CellRow)

abbrev between : (from_ms to_ms : ℕ) → Rows → Rows
between from_ms to_ms [] = []
between from_ms to_ms ((r, cs) ∷ rows) =
    let rest = between from_ms to_ms rows in
    if leb from_ms r.ts_ms && ltb r.ts_ms to_ms then (r, cs) ∷ rest else rest

abbrev row_at : ℕ → SampleRow × List CellRow
row_at ts = (sample_row 1 ts cells pack, [])

abbrev rows : Rows
rows = row_at 3000 ∷ row_at 2000 ∷ row_at 1000 ∷ []

-- One page has one row; the rows are those of `rows`.
abbrev first_row : Rows → Rows
first_row [] = []
first_row (r ∷ rs) = r ∷ []

abbrev reader : Reader Unit
reader = record {
  select = λ bat_id from_ms to_ms limit step_ms d. some (first_row (between from_ms to_ms rows));
}

between-bounded :
    (from_ms to_ms : ℕ) (rs : Rows)
    → All
        (λ (p : SampleRow × List CellRow). (from_ms ≤ p.0.ts_ms) × (p.0.ts_ms < to_ms))
        (between from_ms to_ms rs)
between-bounded from_ms to_ms [] = tt
between-bounded from_ms to_ms ((r, cs) ∷ rs) = ground (arith, between-bounded from_ms to_ms rs)

first_row-bounded :
    (P : SampleRow × List CellRow → Type 0) (rs : Rows) → All P rs → All P (first_row rs)
first_row-bounded P [] h = tt
first_row-bounded P (r ∷ rs) h = (h.0, tt)

first_row-Newest : (rs : Rows) → Newest (first_row rs)
first_row-Newest [] = tt
first_row-Newest ((r, cs) ∷ rs) = (tt, tt)

reader-IsSelect : IsSelect reader
reader-IsSelect = record {
  bounded = λ bat_id from_ms to_ms limit step_ms d e.
      subst (All (λ (p : SampleRow × List CellRow). (from_ms ≤ p.0.ts_ms) × (p.0.ts_ms < to_ms)))
        (some_inj e)
        (first_row-bounded _ (between from_ms to_ms rows) (between-bounded from_ms to_ms rows));
  ordered = λ bat_id from_ms to_ms limit step_ms d e.
      subst Newest (some_inj e) (first_row-Newest (between from_ms to_ms rows));
}

abbrev web_history : History Unit
web_history = record { ram = []; ram_window = 0; names = (b'm' ∷ [], 1) ∷ []; db = tt }

abbrev ctx : PageCtx
ctx = record { battery_id = 1; time_start = 0; time_end = 3000; count = 1; expires_at = 9000 }

abbrev req_id : Bytes
req_id = b'q' ∷ []

abbrev contexts : Contexts
contexts id = if same_name req_id id then some ctx else none

next-GoesOn_example :
    let r = handle_history_next reader 5000 req_id web_history contexts in
    (r.0 ≡ page req_id (page_of reader ctx web_history))
    × Within 0 3000 (page_of reader ctx web_history)
    × ((later : PageCtx)
        → r.1 req_id ≡ some later
        → GoesOn ctx (page_of reader ctx web_history) later)
next-GoesOn_example = next-GoesOn reader reader-IsSelect 5000 req_id web_history contexts ctx refl

abbrev visit : ℕ × History Unit
visit = (5000, web_history)

abbrev visits : ℕ → List (ℕ × History Unit)
visits n = replicate n visit

follow-ends_example : follow reader reader-IsSelect (visits 3001) req_id contexts req_id ≡ none
follow-ends_example =
    follow-ends reader reader-IsSelect (visits 3001) req_id contexts ctx refl
      (omega (arith, length-replicate 3001 visit))

-- A root directory with one file.
abbrev root_dir : Bytes
root_dir = b'/' ∷ b'w' ∷ []

abbrev index_path : Bytes
index_path = b'/' ∷ b'a' ∷ b'.' ∷ b'h' ∷ b't' ∷ b'm' ∷ []

abbrev disk : FileSystem
disk = record { realpath = λ p. some p; read = λ p. some (60 ∷ []) }

served : serve_file disk root_dir index_path ≡ some (html, 60 ∷ [])
unfolding serve_file serve_resolved mime_for_ext extension mime_of
served = refl

serve_file-ServedFrom_example : ServedFrom disk root_dir index_path html (60 ∷ [])
serve_file-ServedFrom_example = serve_file-ServedFrom disk root_dir index_path html (60 ∷ []) served

abbrev names : List (Bytes × ℕ)
names = (b'm' ∷ [], 1) ∷ (b'r' ∷ [], 2) ∷ []

reserve_found : with_name (battery_name 2 names) batteries ≡ some reserve_battery
unfolding with_name battery_name
reserve_found = refl

handle_info-inverter_example :
    (reserve_battery.monitored ≡ false
      → (p : JkPackInfo) (l : JkSettings)
      → handle_info 2 names batteries
        ≡ reserve_info
            (b'm' ∷ [])
            (reserve_pack reserve_battery p).total_capacity_mah
            (reserve_limits reserve_battery l).max_charge_current_ma
            (reserve_limits reserve_battery l).max_discharge_current_ma
            100
            (reserve_pack reserve_battery p).current_ma)
    × (reserve_battery.monitored ≡ true
        → (s : JkSettings) → (snapshot reserve_battery.state).settings ≡ some s
        → handle_info 2 names batteries ≡ settings_info s)
    × (reserve_battery.monitored ≡ true
        → (snapshot reserve_battery.state).settings ≡ none
        → handle_info 2 names batteries ≡ no_settings_yet)
handle_info-inverter_example = handle_info-inverter 2 names batteries reserve_battery reserve_found
