-- ===== src/Http/Json/RoundTrip.antt =====
-- What a client reads from a page of /history is what the server put in.
use bms_bridge.Base.{
  ℕ, ◌<◌, ◌≡◌, refl, ap, List, [], ◌∷◌, some, All, map, Bytes, ℤ, pos, negsuc, pos_part, Fits,
  IsI16, IsI32, AreWords, arith,
}
use bms_bridge.History.Aggregate.{Doubles}
use bms_bridge.History.Rows.{TelemetrySample}
use bms_bridge.History.Rows.RoundTrip.{IsPack, IsCells}
use bms_bridge.Http.Json.{items, array}
use bms_bridge.Http.Json.Samples.{count, sample_to_cjson, history_json}
use bms_bridge.Http.Json.Reading.{IsExact, as_count, as_list, read_sample, read_page}

-- The part of a sample that /history sends.
abbrev pub sent_part : TelemetrySample → TelemetrySample
sent_part s = record s {
  battery_id = [];
  cells = record s.cells { max_voltage_cell_idx = 0; min_voltage_cell_idx = 0 };
}

-- The values that the fields' types can hold, and a time of at most 53 bits.
pub record IsSample (s : TelemetrySample) : Type 0 where
  pub ts : s.ts < 9007199254740992
  pub cells : IsCells s.cells
  pub pack : IsPack s.pack

Fits-IsI16 : (z : ℤ) → IsI16 z → Fits 9007199254740991 z
Fits-IsI16 (pos n) h = omega arith
Fits-IsI16 (negsuc n) h = omega arith

Fits-IsI32 : (z : ℤ) → IsI32 z → Fits 9007199254740991 z
Fits-IsI32 (pos n) h = omega arith
Fits-IsI32 (negsuc n) h = omega arith

module _ {F : Type 0} {N : Doubles F} (E : IsExact N) where
  read_count : (n : ℕ) → n < 9007199254740992 → pos_part (E.int_of (N.of_int (pos n))) ≡ n
  read_count n h = ap pos_part (E.int_of-of_int (pos n) (omega arith))

  read_i16 : (z : ℤ) → IsI16 z → E.int_of (N.of_int z) ≡ z
  read_i16 z h = E.int_of-of_int z (Fits-IsI16 z h)

  read_i32 : (z : ℤ) → IsI32 z → E.int_of (N.of_int z) ≡ z
  read_i32 z h = E.int_of-of_int z (Fits-IsI32 z h)

  read_words :
      (ws : List ℕ)
      → AreWords ws
      → as_list (as_count E) (array (items (map (count N) ws))) ≡ some ws
  read_words [] h = refl
  read_words (w ∷ ws) h =
      rw (read_words ws h.1) (ap (λ v. some (v ∷ ws)) (read_count w (omega arith)))

  read_sample-sent :
      (s : TelemetrySample) → IsSample s → read_sample E (sample_to_cjson N s) ≡ some (sent_part s)
  unfolding sample_to_cjson
  read_sample-sent s v =
      let p = s.pack in
      let c = s.cells in
      let ts = read_count s.ts v.ts in
      let soc = read_count p.state_of_charge_pct (omega arith) in
      let remaining = read_count p.remaining_capacity_mah (omega arith) in
      let total = read_count p.total_capacity_mah (omega arith) in
      let cycles = read_count p.cycle_count (omega arith) in
      let errors = read_count p.errors_bitmask (omega arith) in
      let average = read_count c.average_voltage_mv (omega arith) in
      let diff = read_count c.voltage_diff_mv (omega arith) in
      let voltage = read_i32 p.voltage_mv v.pack.voltage_mv in
      let current = read_i32 p.current_ma v.pack.current_ma in
      let temp1 = read_i16 p.battery_temp1_dc v.pack.battery_temp1_dc in
      let temp2 = read_i16 p.battery_temp2_dc v.pack.battery_temp2_dc in
      let mos = read_i16 p.power_tube_temp_dc v.pack.power_tube_temp_dc in
      let balance = read_i16 p.balance_current_ma v.pack.balance_current_ma in
      rw (read_words c.voltages_mv v.cells.voltages_mv) (
        rw (read_words c.resistance_uohm v.cells.resistance_uohm) (λ i. some (record (sent_part s) {
          ts = ts i;
          cells = record (sent_part s).cells {
            average_voltage_mv = average i;
            voltage_diff_mv = diff i;
          };
          pack = record p {
            voltage_mv = voltage i;
            current_ma = current i;
            state_of_charge_pct = soc i;
            remaining_capacity_mah = remaining i;
            total_capacity_mah = total i;
            cycle_count = cycles i;
            battery_temp1_dc = temp1 i;
            battery_temp2_dc = temp2 i;
            power_tube_temp_dc = mos i;
            balance_current_ma = balance i;
            errors_bitmask = errors i;
          };
        })))

  read_samples :
      (ss : List TelemetrySample)
      → All IsSample ss
      → as_list (read_sample E) (array (items (map (sample_to_cjson N) ss)))
        ≡ some (map sent_part ss)
  read_samples [] h = refl
  read_samples (s ∷ ss) h = rw (read_sample-sent s h.0, read_samples ss h.1) refl

  -- For samples whose fields hold values of their types and a time of at most 53 bits: a client that
  -- looks the values up by their keys reads from the page of /history its request id and all its
  -- samples, in their order, with every value but the battery and the indices of two cells.
  pub read_page-history_json :
      (req_id : Bytes) (ss : List TelemetrySample)
      → All IsSample ss
      → read_page E (history_json N req_id ss) ≡ some (req_id, map sent_part ss)
  unfolding history_json
  read_page-history_json req_id ss h = rw (read_samples ss h) refl
