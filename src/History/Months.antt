-- ===== src/History/Months.antt =====
-- The days of a month: get_daily_energy of src/history.cpp.
use bms_bridge.Base.{
  ℕ, ◌+◌, ◌*◌, ◌/◌, ◌%◌, ◌≤◌, ◌<◌, ◌≡◌, ◌↔◌, ap, ◌∙◌, List, [], ◌∷◌, ◌++◌, append_assoc, Bool, true,
  false, Bool-cases, ltb, ◌==◌, inl, inr, if◌then◌else◌, Bytes, Option, none, some, arith,
}
use bms_bridge.History.{History, battery_name}

abbrev digit : ℕ → ℕ
digit v = b'0' + v % 10

-- %02d and %04d of a value below 100 and 10000.
unfoldable pub pad2 : ℕ → Bytes
pad2 n = digit (n / 10) ∷ digit n ∷ []

unfoldable pub pad4 : ℕ → Bytes
pad4 n = digit (n / 1000) ∷ digit (n / 100) ∷ digit (n / 10) ∷ digit n ∷ []

-- YYYY-MM-DD
abbrev pub date_text : (year month day : ℕ) → Bytes
date_text year month day = pad4 year ++ (b'-' ∷ (pad2 month ++ (b'-' ∷ pad2 day)))

unfoldable pub month_start : (year month : ℕ) → Bytes
unfolding pad2 pad4
month_start year month = date_text year month 1

unfoldable pub month_end : (year month : ℕ) → Bytes
unfolding pad2 pad4
month_end year month =
    if ltb 12 (month + 1) then date_text (year + 1) 1 1 else date_text year (month + 1) 1

pub record DailyEnergy (F : Type 0) : Type 0 where
  pub battery_id : ℕ
  pub battery_name : Bytes
  pub date : Bytes
  pub charged_wh : F
  pub discharged_wh : F

-- The SELECT over daily_energy: a battery's rows with `from ≤ date < to`, none when it cannot be
-- prepared. `F` are the doubles.
pub record DailyReader (D F : Type 0) : Type 0 where
  pub select_daily : ℕ → (from to : Bytes) → D → Option (List (ℕ × Bytes × F × F))

unfoldable pub energies :
    {F : Type 0} → List (Bytes × ℕ) → List (ℕ × Bytes × F × F) → List (DailyEnergy F)
energies names [] = []
energies names ((id, date, charged, discharged) ∷ rows) =
    record {
      battery_id = id;
      battery_name = battery_name id names;
      date = date;
      charged_wh = charged;
      discharged_wh = discharged;
    }
    ∷ energies names rows

unfoldable pub get_daily_energy :
    {D F : Type 0}
    → DailyReader D F
    → (battery_id year month : ℕ) → History D
    → List (DailyEnergy F)
unfolding energies month_start month_end
get_daily_energy R battery_id year month h =
    elim (R.select_daily battery_id (month_start year month) (month_end year month) h.db) [
      | none ↦ []
      | some rows ↦ energies h.names rows
    ]

-- The order of two texts, byte by byte.
abbrev pub text_lt : Bytes → Bytes → Bool
text_lt [] [] = false
text_lt [] (y ∷ ys) = true
text_lt (x ∷ xs) [] = false
text_lt (x ∷ xs) (y ∷ ys) =
    let rest = text_lt xs ys in if ltb x y then true else if x == y then rest else false

abbrev decided : ℕ → ℕ → Bool → Bool
decided a b rest = if ltb a b then true else if a == b then rest else false

pad2-lt :
    (a b : ℕ) (r s : Bytes)
    → a < 100
    → b < 100
    → text_lt (pad2 a ++ r) (pad2 b ++ s) ≡ decided a b (text_lt r s)
unfolding pad2
pad2-lt a b r s h k = ground arith

pad4-pads : (n : ℕ) → pad4 n ≡ pad2 (n / 100) ++ pad2 (n % 100)
unfolding pad4 pad2
pad4-pads n =
    let thousands : digit (n / 1000) ≡ digit (n / 100 / 10) = omega arith in
    let tens : digit (n / 10) ≡ digit (n % 100 / 10) = omega arith in
    let units : digit n ≡ digit (n % 100) = omega arith in
    λ i. thousands i ∷ digit (n / 100) ∷ tens i ∷ units i ∷ []

halves :
    (a b : ℕ) (rest : Bool)
    → decided (a / 100) (b / 100) (decided (a % 100) (b % 100) rest) ≡ decided a b rest
halves a b rest = ground arith

pads_assoc :
    (p q r u v s : Bytes)
    → text_lt ((p ++ q) ++ r) ((u ++ v) ++ s) ≡ text_lt (p ++ (q ++ r)) (u ++ (v ++ s))
pads_assoc p q r u v s = λ i. text_lt (append_assoc p q r i) (append_assoc u v s i)

pad4-lt :
    (a b : ℕ) (r s : Bytes)
    → a < 10000
    → b < 10000
    → text_lt (pad4 a ++ r) (pad4 b ++ s) ≡ decided a b (text_lt r s)
pad4-lt a b r s h k =
    ap (λ p. text_lt (p ++ r) (pad4 b ++ s)) (pad4-pads a)
    ∙ ap (λ p. text_lt ((pad2 (a / 100) ++ pad2 (a % 100)) ++ r) (p ++ s)) (pad4-pads b)
    ∙ pads_assoc (pad2 (a / 100)) (pad2 (a % 100)) r (pad2 (b / 100)) (pad2 (b % 100)) s
    ∙ pad2-lt (a / 100) (b / 100) (pad2 (a % 100) ++ r) (pad2 (b % 100) ++ s) (omega arith)
        (omega arith)
    ∙ ap (decided (a / 100) (b / 100)) (pad2-lt (a % 100) (b % 100) r s (omega arith) (omega arith))
    ∙ halves a b (text_lt r s)

-- The order of dates as numbers.
abbrev pub date_number : (year month day : ℕ) → ℕ
date_number year month day = year * 10000 + month * 100 + day

day-lt : (d d' : ℕ) → d < 100 → d' < 100 → text_lt (pad2 d) (pad2 d') ≡ decided d d' false
unfolding pad2
day-lt d d' h k = ground arith

numbers :
    (y m d y' m' d' : ℕ)
    → m < 100
    → d < 100
    → m' < 100
    → d' < 100
    → decided y y' (decided m m' (decided d d' false))
      ≡ ltb (date_number y m d) (date_number y' m' d')
numbers y m d y' m' d' hm hd hm' hd' = ground arith

date_text-lt :
    (y m d y' m' d' : ℕ)
    → y < 10000
    → m < 100
    → d < 100
    → y' < 10000
    → m' < 100
    → d' < 100
    → text_lt (date_text y m d) (date_text y' m' d')
      ≡ ltb (date_number y m d) (date_number y' m' d')
date_text-lt y m d y' m' d' hy hm hd hy' hm' hd' =
    pad4-lt y y' _ _ hy hy'
    ∙ ap (decided y y') (
        pad2-lt m m' (b'-' ∷ pad2 d) (b'-' ∷ pad2 d') hm hm'
        ∙ ap (decided m m') (day-lt d d' hd hd'))
    ∙ numbers y m d y' m' d' hm hd hm' hd'

start-lt :
    (y m d year month : ℕ)
    → y < 10000
    → m < 100
    → d < 100
    → year < 10000
    → month < 100
    → text_lt (date_text y m d) (month_start year month)
      ≡ ltb (date_number y m d) (date_number year month 1)
unfolding month_start
start-lt y m d year month hy hm hd hy' hm' =
    date_text-lt y m d year month 1 hy hm hd hy' hm' (omega arith)

abbrev end_number : (year month : ℕ) → ℕ
end_number year month =
    if ltb 12 (month + 1) then date_number (year + 1) 1 1 else date_number year (month + 1) 1

end-lt :
    (y m d year month : ℕ)
    → y < 10000
    → m < 100
    → d < 100
    → year < 9999
    → 1 ≤ month
    → month ≤ 12
    → text_lt (date_text y m d) (month_end year month)
      ≡ ltb (date_number y m d) (end_number year month)
unfolding month_end
end-lt y m d year month hy hm hd hy' lm um = elim (Bool-cases (ltb 12 (month + 1))) [
  | inl e ↦
      rw (e, month_end)
        (date_text-lt y m d (year + 1) 1 1 hy hm hd (omega arith) (omega arith) (omega arith))
  | inr e ↦
      rw (e, month_end)
        (date_text-lt y m d year (month + 1) 1 hy hm hd (omega arith) (omega arith) (omega arith))
]

numbers-month :
    (y m d year month : ℕ)
    → 1 ≤ month
    → month ≤ 12
    → 1 ≤ m
    → m ≤ 12
    → 1 ≤ d
    → d ≤ 31
    → ((ltb (date_number y m d) (date_number year month 1) ≡ false)
        × (ltb (date_number y m d) (end_number year month) ≡ true))
      ↔ ((y ≡ year) × (m ≡ month))
numbers-month y m d year month lm um lm' um' ld ud = ((λ h. ground arith), (λ h. ground arith))

-- get_daily_energy()'s test of a row's date.
abbrev pub InMonth : (year month : ℕ) → Bytes → Type 0
InMonth year month date =
    (text_lt date (month_start year month) ≡ false) × (text_lt date (month_end year month) ≡ true)

-- For years up to 9998, the dates that the query selects for a month are exactly those of its days,
-- in December too.
pub InMonth-iff :
    (year month y m d : ℕ)
    → year < 9999
    → y < 10000
    → 1 ≤ month
    → month ≤ 12
    → 1 ≤ m
    → m ≤ 12
    → 1 ≤ d
    → d ≤ 31
    → InMonth year month (date_text y m d) ↔ ((y ≡ year) × (m ≡ month))
InMonth-iff year month y m d hy hy' lm um lm' um' ld ud =
    rw
      (
        start-lt y m d year month hy' (omega arith) (omega arith) (omega arith) (omega arith),
        end-lt y m d year month hy' (omega arith) (omega arith) hy lm um,
      )
      (numbers-month y m d year month lm um lm' um' ld ud)
