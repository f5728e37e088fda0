-- ===== src/Http/Daily.antt =====
-- The days of /daily: handle_daily of src/http_server.cpp. A number of the request is what atoi makes
-- of it; a year or a month below 0 counts as 0, which the code treats alike, and a battery id is one
-- that a database gives.
use bms_bridge.Base.{ℕ, List, ◌||◌, leb, if◌then◌else◌}
use bms_bridge.History.{History}
use bms_bridge.History.Months.{DailyReader, DailyEnergy, get_daily_energy}

pub record DailyQuery : Type 0 where
  pub battery : ℕ
  pub year : ℕ
  pub month : ℕ

pub record DailyReply (F : Type 0) : Type 0 where
  pub battery_id : ℕ
  pub year : ℕ
  pub month : ℕ
  pub days : List (DailyEnergy F)

unfoldable pub daily_reply :
    {D F : Type 0} → DailyReader D F → (battery year month : ℕ) → History D → DailyReply F
unfolding get_daily_energy
daily_reply R battery year month h = record {
  battery_id = battery;
  year = year;
  month = month;
  days = get_daily_energy R battery year month h;
}

-- `this_year` and `this_month` are the current UTC month.
unfoldable pub handle_daily :
    {D F : Type 0}
    → DailyReader D F
    → (this_year this_month : ℕ) → DailyQuery
    → History D
    → DailyReply F
unfolding daily_reply
handle_daily R this_year this_month q h =
    if leb q.year 0 || leb q.month 0
    then daily_reply R q.battery this_year this_month h
    else daily_reply R q.battery q.year q.month h
