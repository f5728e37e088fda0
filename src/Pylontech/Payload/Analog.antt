-- ===== src/Pylontech/Payload/Analog.antt =====
-- CID2 = 0x42, analog data: AnalogResponse of include/pylontech.hpp and its methods in src/pylontech.cpp.
use bms_bridge.Base.{
  ℕ, ◌≤◌, ◌≡◌, Bool, true, List, [], ◌∷◌, ◌++◌, length, Bytes, u8, ℤ, arith, append_assoc, IsByte,
  IsWord, IsI16, AreWords, u16_of,
}
use bms_bridge.Pylontech.Cursor.{
  put_u8, put_u16, put_i16, put_u16s, Read, ◌>>=◌, pure, get_u8, read_u8, get_u16, get_i16,
  get_u16s, reader, u16_bytes, u16s_bytes, put_u16s-eq, get_u16-put, get_i16-put, get_u16s-put,
  IsOutput, empty-IsOutput, put_u8-IsOutput, put_u16-IsOutput, put_u16s-IsOutput,
}

pub record AnalogResponse : Type 0 where
  pub infoflag : ℕ
  pub command : ℕ
  pub cell_voltages_mv : List ℕ
  pub temperatures_k10 : List ℕ
  pub current_01a : ℤ
  pub module_voltage_mv : ℕ
  pub remain_capacity_mah : ℕ
  pub user_defined_count : ℕ
  pub total_capacity_mah : ℕ
  pub cycle_count : ℕ

-- The lengths are cast to uint8_t.
unfoldable pub serialize : AnalogResponse → Bytes → Bytes
serialize r info =
    let w = put_u8 (put_u8 info r.infoflag) r.command in
    let w = put_u16s (put_u8 w (u8 (length r.cell_voltages_mv))) r.cell_voltages_mv in
    let w = put_u16s (put_u8 w (u8 (length r.temperatures_k10))) r.temperatures_k10 in
    let w = put_u16 (put_u16 (put_i16 w r.current_01a) r.module_voltage_mv) r.remain_capacity_mah in
    put_u16 (put_u16 (put_u8 w r.user_defined_count) r.total_capacity_mah) r.cycle_count

read : Read AnalogResponse
read = do
  infoflag ← get_u8
  command ← get_u8
  n_cells ← get_u8
  cell_voltages_mv ← get_u16s n_cells
  n_temps ← get_u8
  temperatures_k10 ← get_u16s n_temps
  current_01a ← get_i16
  module_voltage_mv ← get_u16
  remain_capacity_mah ← get_u16
  user_defined_count ← get_u8
  total_capacity_mah ← get_u16
  cycle_count ← get_u16
  pure (record {
    infoflag = infoflag;
    command = command;
    cell_voltages_mv = cell_voltages_mv;
    temperatures_k10 = temperatures_k10;
    current_01a = current_01a;
    module_voltage_mv = module_voltage_mv;
    remain_capacity_mah = remain_capacity_mah;
    user_defined_count = user_defined_count;
    total_capacity_mah = total_capacity_mah;
    cycle_count = cycle_count;
  })

-- The fields, and the flag that the method returns.
unfoldable pub deserialize : Bytes → AnalogResponse × Bool
unfolding read
deserialize info = let (fields, r) = read (reader info) in (fields, r.ok)

pub record IsAnalog (r : AnalogResponse) : Type 0 where
  pub infoflag : IsByte r.infoflag
  pub command : IsByte r.command
  pub cells : AreWords r.cell_voltages_mv
  pub few_cells : length r.cell_voltages_mv ≤ 255
  pub temperatures : AreWords r.temperatures_k10
  pub few_temperatures : length r.temperatures_k10 ≤ 255
  pub current : IsI16 r.current_01a
  pub module_voltage : IsWord r.module_voltage_mv
  pub remain_capacity : IsWord r.remain_capacity_mah
  pub user_defined : IsByte r.user_defined_count
  pub total_capacity : IsWord r.total_capacity_mah
  pub cycles : IsWord r.cycle_count

-- The fixed fields behind the two lists.
abbrev tail_bytes : AnalogResponse → Bytes → Bytes
tail_bytes r tl =
    u16_bytes (u16_of r.current_01a)
    ++ (u16_bytes r.module_voltage_mv
        ++ (u16_bytes r.remain_capacity_mah
            ++ (r.user_defined_count
                ∷ (u16_bytes r.total_capacity_mah ++ (u16_bytes r.cycle_count ++ tl)))))

serialize-eq :
    (r : AnalogResponse) (info tl : Bytes)
    → serialize r info ++ tl
      ≡ info
        ++ (r.infoflag
            ∷ r.command
            ∷ u8 (length r.cell_voltages_mv)
            ∷ (u16s_bytes r.cell_voltages_mv
                ++ (u8 (length r.temperatures_k10)
                    ∷ (u16s_bytes r.temperatures_k10 ++ tail_bytes r tl))))
unfolding serialize
serialize-eq r info tl = simp (put_u16s-eq, append_assoc)

-- Deserialising what was serialised gives every field back and reports success, whatever bytes
-- follow: for fields in their ranges and at most 255 cells and 255 temperatures.
pub deserialize-serialize :
    (r : AnalogResponse) (tl : Bytes) → IsAnalog r → deserialize (serialize r [] ++ tl) ≡ (r, true)
unfolding deserialize get_u8 read_u8
deserialize-serialize r tl v =
    let cells : u8 (length r.cell_voltages_mv) ≡ length r.cell_voltages_mv =
      omega (arith, v.few_cells) in
    let temps : u8 (length r.temperatures_k10) ≡ length r.temperatures_k10 =
      omega (arith, v.few_temperatures) in
    rw (
      serialize-eq r [] tl,
      cells,
      get_u16s-put r.cell_voltages_mv _ true v.cells,
      temps,
      get_u16s-put r.temperatures_k10 _ true v.temperatures,
      get_i16-put _ true r.current_01a v.current,
      get_u16-put _ true r.module_voltage_mv v.module_voltage,
      get_u16-put _ true r.remain_capacity_mah v.remain_capacity,
      get_u16-put _ true r.total_capacity_mah v.total_capacity,
      get_u16-put _ true r.cycle_count v.cycles,
    )

-- The payload of in-range fields is bytes; the two counts are cast, the words split.
pub serialize-IsOutput : (r : AnalogResponse) → IsAnalog r → IsOutput (serialize r [])
unfolding serialize
serialize-IsOutput r v =
    let head =
      put_u8-IsOutput r.command (put_u8-IsOutput r.infoflag empty-IsOutput v.infoflag) v.command in
    let cells =
      put_u16s-IsOutput r.cell_voltages_mv
        (put_u8-IsOutput (u8 (length r.cell_voltages_mv)) head (omega arith)) in
    let temps =
      put_u16s-IsOutput r.temperatures_k10
        (put_u8-IsOutput (u8 (length r.temperatures_k10)) cells (omega arith)) in
    let middle =
      put_u16-IsOutput r.remain_capacity_mah
        (put_u16-IsOutput r.module_voltage_mv (put_u16-IsOutput (u16_of r.current_01a) temps)) in
    put_u16-IsOutput r.cycle_count (
      put_u16-IsOutput r.total_capacity_mah
        (put_u8-IsOutput r.user_defined_count middle v.user_defined))
