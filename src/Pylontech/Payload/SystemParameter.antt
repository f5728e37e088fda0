-- ===== src/Pylontech/Payload/SystemParameter.antt =====
-- CID2 = 0x47, system limits: SystemParameterResponse of include/pylontech.hpp and its methods in src/pylontech.cpp.
use bms_bridge.Base.{
  ℕ, ◌≡◌, refl, sym, ◌∙◌, Bool, true, [], ◌∷◌, ◌++◌, length, Bytes, ℤ, append_assoc, leb, IsByte,
  IsWord, IsI16, u16_of,
}
use bms_bridge.Pylontech.Cursor.{
  put_u8, put_u16, put_i16, Read, ◌>>=◌, pure, get_u8, read_u8, get_u16, get_i16, reader, u16_bytes,
  get_u16-put, get_i16-put, IsOutput, empty-IsOutput, put_u8-IsOutput, put_u16-IsOutput, can_take,
  can_take-get_u8, can_take-get_u16, can_take-get_i16, can_take-zero,
}

pub record SystemParameterResponse : Type 0 where
  pub infoflag : ℕ
  pub cell_high_voltage_limit_mv : ℕ
  pub cell_low_voltage_limit_mv : ℕ
  pub cell_under_voltage_limit_mv : ℕ
  pub charge_high_temp_k10 : ℕ
  pub charge_low_temp_k10 : ℕ
  pub charge_current_limit_01a : ℤ
  pub module_high_voltage_limit_mv : ℕ
  pub module_low_voltage_limit_mv : ℕ
  pub module_under_voltage_limit_mv : ℕ
  pub discharge_high_temp_k10 : ℕ
  pub discharge_low_temp_k10 : ℕ
  pub discharge_current_limit_01a : ℤ

unfoldable pub serialize : SystemParameterResponse → Bytes → Bytes
serialize r info =
    let w = put_u16 (put_u8 info r.infoflag) r.cell_high_voltage_limit_mv in
    let w = put_u16 (put_u16 w r.cell_low_voltage_limit_mv) r.cell_under_voltage_limit_mv in
    let w = put_u16 (put_u16 w r.charge_high_temp_k10) r.charge_low_temp_k10 in
    let w = put_i16 w r.charge_current_limit_01a in
    let w = put_u16 (put_u16 w r.module_high_voltage_limit_mv) r.module_low_voltage_limit_mv in
    let w = put_u16 w r.module_under_voltage_limit_mv in
    let w = put_u16 (put_u16 w r.discharge_high_temp_k10) r.discharge_low_temp_k10 in
    put_i16 w r.discharge_current_limit_01a

read : Read SystemParameterResponse
read = do
  infoflag ← get_u8
  cell_high ← get_u16
  cell_low ← get_u16
  cell_under ← get_u16
  charge_high ← get_u16
  charge_low ← get_u16
  charge_current ← get_i16
  module_high ← get_u16
  module_low ← get_u16
  module_under ← get_u16
  discharge_high ← get_u16
  discharge_low ← get_u16
  discharge_current ← get_i16
  pure (record {
    infoflag = infoflag;
    cell_high_voltage_limit_mv = cell_high;
    cell_low_voltage_limit_mv = cell_low;
    cell_under_voltage_limit_mv = cell_under;
    charge_high_temp_k10 = charge_high;
    charge_low_temp_k10 = charge_low;
    charge_current_limit_01a = charge_current;
    module_high_voltage_limit_mv = module_high;
    module_low_voltage_limit_mv = module_low;
    module_under_voltage_limit_mv = module_under;
    discharge_high_temp_k10 = discharge_high;
    discharge_low_temp_k10 = discharge_low;
    discharge_current_limit_01a = discharge_current;
  })

unfoldable pub deserialize : Bytes → SystemParameterResponse × Bool
unfolding read
deserialize info = let (fields, r) = read (reader info) in (fields, r.ok)

pub record IsSystemParameter (r : SystemParameterResponse) : Type 0 where
  pub infoflag : IsByte r.infoflag
  pub cell_high_voltage_limit_mv : IsWord r.cell_high_voltage_limit_mv
  pub cell_low_voltage_limit_mv : IsWord r.cell_low_voltage_limit_mv
  pub cell_under_voltage_limit_mv : IsWord r.cell_under_voltage_limit_mv
  pub charge_high_temp_k10 : IsWord r.charge_high_temp_k10
  pub charge_low_temp_k10 : IsWord r.charge_low_temp_k10
  pub charge_current_limit_01a : IsI16 r.charge_current_limit_01a
  pub module_high_voltage_limit_mv : IsWord r.module_high_voltage_limit_mv
  pub module_low_voltage_limit_mv : IsWord r.module_low_voltage_limit_mv
  pub module_under_voltage_limit_mv : IsWord r.module_under_voltage_limit_mv
  pub discharge_high_temp_k10 : IsWord r.discharge_high_temp_k10
  pub discharge_low_temp_k10 : IsWord r.discharge_low_temp_k10
  pub discharge_current_limit_01a : IsI16 r.discharge_current_limit_01a

serialize-eq :
    (r : SystemParameterResponse) (info tl : Bytes)
    → serialize r info ++ tl
      ≡ info
        ++ (r.infoflag
            ∷ (u16_bytes r.cell_high_voltage_limit_mv
                ++ (u16_bytes r.cell_low_voltage_limit_mv
                    ++ (u16_bytes r.cell_under_voltage_limit_mv
                        ++ (u16_bytes r.charge_high_temp_k10
                            ++ (u16_bytes r.charge_low_temp_k10
                                ++ (u16_bytes (u16_of r.charge_current_limit_01a)
                                    ++ (u16_bytes r.module_high_voltage_limit_mv
                                        ++ (u16_bytes r.module_low_voltage_limit_mv
                                            ++ (u16_bytes r.module_under_voltage_limit_mv
                                                ++ (u16_bytes r.discharge_high_temp_k10
                                                    ++ (u16_bytes r.discharge_low_temp_k10
                                                        ++ (u16_bytes
                                                            (u16_of r.discharge_current_limit_01a)
                                                            ++ (tl))))))))))))))
unfolding serialize
serialize-eq r info tl = simp append_assoc

-- Deserialising what was serialised gives every field back and reports success, whatever bytes
-- follow: for fields in their ranges.
pub deserialize-serialize :
    (r : SystemParameterResponse) (tl : Bytes)
    → IsSystemParameter r
    → deserialize (serialize r [] ++ tl) ≡ (r, true)
unfolding deserialize get_u8 read_u8
deserialize-serialize r tl v = rw (
  serialize-eq r [] tl,
  get_u16-put _ true r.cell_high_voltage_limit_mv v.cell_high_voltage_limit_mv,
  get_u16-put _ true r.cell_low_voltage_limit_mv v.cell_low_voltage_limit_mv,
  get_u16-put _ true r.cell_under_voltage_limit_mv v.cell_under_voltage_limit_mv,
  get_u16-put _ true r.charge_high_temp_k10 v.charge_high_temp_k10,
  get_u16-put _ true r.charge_low_temp_k10 v.charge_low_temp_k10,
  get_i16-put _ true r.charge_current_limit_01a v.charge_current_limit_01a,
  get_u16-put _ true r.module_high_voltage_limit_mv v.module_high_voltage_limit_mv,
  get_u16-put _ true r.module_low_voltage_limit_mv v.module_low_voltage_limit_mv,
  get_u16-put _ true r.module_under_voltage_limit_mv v.module_under_voltage_limit_mv,
  get_u16-put _ true r.discharge_high_temp_k10 v.discharge_high_temp_k10,
  get_u16-put _ true r.discharge_low_temp_k10 v.discharge_low_temp_k10,
  get_i16-put _ true r.discharge_current_limit_01a v.discharge_current_limit_01a,
)

-- The flag is true exactly when the payload has the 25 bytes of the fixed layout.
pub deserialize-ok : (info : Bytes) → (deserialize info).1 ≡ leb 25 (length info)
unfolding deserialize
deserialize-ok info =
    sym (can_take-zero (read (reader info)).1)
    ∙ simp (can_take-get_i16, can_take-get_u16, can_take-get_u8) (unfold can_take in refl)

pub serialize-IsOutput :
    (r : SystemParameterResponse) → IsByte r.infoflag → IsOutput (serialize r [])
unfolding serialize
serialize-IsOutput r h = put_u16-IsOutput (u16_of r.discharge_current_limit_01a) (
    put_u16-IsOutput r.discharge_low_temp_k10 (
      put_u16-IsOutput r.discharge_high_temp_k10 (
        put_u16-IsOutput r.module_under_voltage_limit_mv (
          put_u16-IsOutput r.module_low_voltage_limit_mv (
            put_u16-IsOutput r.module_high_voltage_limit_mv (
              put_u16-IsOutput (u16_of r.charge_current_limit_01a) (
                put_u16-IsOutput r.charge_low_temp_k10 (
                  put_u16-IsOutput r.charge_high_temp_k10 (
                    put_u16-IsOutput r.cell_under_voltage_limit_mv (
                      put_u16-IsOutput r.cell_low_voltage_limit_mv (
                        put_u16-IsOutput r.cell_high_voltage_limit_mv
                          (put_u8-IsOutput r.infoflag empty-IsOutput h))))))))))))
