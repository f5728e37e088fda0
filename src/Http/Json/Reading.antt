-- ===== src/Http/Json/Reading.antt =====
-- A reader of the replies, as a client of the server would have it: values by their keys. It is
-- independent of the order in which src/http_server.cpp writes them.
use Prim.Native.String.{String}
use text.Mathlib.Text.{◌==◌}
use bms_bridge.Base.{
  ℕ, ◌≡◌, List, [], ◌∷◌, Option, none, some, Bool, if◌then◌else◌, ◌>>=◌, Bytes, ℤ, pos_part, Fits,
}
use bms_bridge.History.Aggregate.{Doubles}
use bms_bridge.History.Rows.{TelemetrySample}
use bms_bridge.Http.Json.{
  Json, number, boolean, string, array, object, Items, nil, cons, Fields, end, field,
}

-- The integer that a double stands for: every integer of at most 53 bits is a double.
pub record IsExact {F : Type 0} (N : Doubles F) : Type 0 where
  pub int_of : F → ℤ
  pub int_of-of_int : (z : ℤ) → Fits 9007199254740991 z → int_of (N.of_int z) ≡ z

module _ {F : Type 0} where
  abbrev pub find : String → Fields F → Option (Json F)
  find k end = none
  find k (field j v fs) = let rest = find k fs in if j == k then some v else rest

  -- The first value with the key.
  abbrev pub get : String → Json F → Option (Json F)
  get k (object fs) = find k fs
  get k v = none

  abbrev pub as_boolean : Json F → Option Bool
  as_boolean (boolean b) = some b
  as_boolean v = none

  abbrev pub as_string : Json F → Option Bytes
  as_string (string s) = some s
  as_string v = none

  abbrev pub as_number : Json F → Option F
  as_number (number x) = some x
  as_number v = none

  -- A list, when every item can be read.
  abbrev pub read_items : {A : Type 0} → (Json F → Option A) → Items F → Option (List A)
  read_items f nil = some []
  read_items f (cons v vs) = f v >>= λ x. read_items f vs >>= λ xs. some (x ∷ xs)

  abbrev pub as_list : {A : Type 0} → (Json F → Option A) → Json F → Option (List A)
  as_list f (array vs) = read_items f vs
  as_list f v = none

module _ {F : Type 0} {N : Doubles F} (E : IsExact N) where
  abbrev pub as_signed : Json F → Option ℤ
  as_signed v = as_number v >>= λ x. some (E.int_of x)

  abbrev pub as_count : Json F → Option ℕ
  as_count v = as_number v >>= λ x. some (pos_part (E.int_of x))

  -- What /history does not send is left empty: the battery, and the indices of two cells.
  abbrev pub read_sample : Json F → Option TelemetrySample
  read_sample v = do
    ts ← get "ts" v >>= as_count
    voltage ← get "voltage_mv" v >>= as_signed
    current ← get "current_ma" v >>= as_signed
    soc ← get "soc_pct" v >>= as_count
    remaining ← get "remaining_mah" v >>= as_count
    total ← get "total_mah" v >>= as_count
    cycles ← get "cycle_count" v >>= as_count
    temp1 ← get "temp1_dc" v >>= as_signed
    temp2 ← get "temp2_dc" v >>= as_signed
    mos ← get "mos_temp_dc" v >>= as_signed
    charging ← get "charging" v >>= as_boolean
    discharging ← get "discharging" v >>= as_boolean
    balancer ← get "balancer" v >>= as_boolean
    balance ← get "balance_current_ma" v >>= as_signed
    errors ← get "errors" v >>= as_count
    average ← get "avg_cell_mv" v >>= as_count
    diff ← get "diff_cell_mv" v >>= as_count
    voltages ← get "cells_mv" v >>= as_list as_count
    resistances ← get "resistance_uohm" v >>= as_list as_count
    some (record {
      battery_id = [];
      ts = ts;
      cells = record {
        voltages_mv = voltages;
        resistance_uohm = resistances;
        average_voltage_mv = average;
        voltage_diff_mv = diff;
        max_voltage_cell_idx = 0;
        min_voltage_cell_idx = 0;
      };
      pack = record {
        voltage_mv = voltage;
        current_ma = current;
        state_of_charge_pct = soc;
        remaining_capacity_mah = remaining;
        total_capacity_mah = total;
        cycle_count = cycles;
        battery_temp1_dc = temp1;
        battery_temp2_dc = temp2;
        power_tube_temp_dc = mos;
        charging_enabled = charging;
        discharging_enabled = discharging;
        balancer_enabled = balancer;
        balance_current_ma = balance;
        errors_bitmask = errors;
      };
    })

  -- A page: its request id and its samples.
  abbrev pub read_page : Json F → Option (Bytes × List TelemetrySample)
  read_page v = do
    req_id ← get "req_id" v >>= as_string
    shown ← get "data" v >>= as_list read_sample
    some (req_id, shown)
