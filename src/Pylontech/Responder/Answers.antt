-- ===== src/Pylontech/Responder/Answers.antt =====
-- What the inverter reads from the answers: each is taken apart again by the parser and by the
-- payload's own reader.
use bms_bridge.Base.{
  ℕ, zero, suc, ◌≤◌, ◌≡◌, u8, min, arith, true, [], ◌∷◌, ◌++◌, append-nil, length, replicate,
  length-replicate, AreBytes, AreWords, IsByte, IsWord, IsI16, Bytes, ℤ, pos, negsuc, u16_of-lt,
}
use bms_bridge.Pylontech.Frame.{PylontechFrame, frame, try_parse_pylontech, build_pylontech}
use bms_bridge.Pylontech.Frame.RoundTrip.{IsFrame, try_parse-build}
use bms_bridge.Pylontech.Payload.Analog.{IsAnalog, AnalogResponse}
use bms_bridge.Pylontech.Payload.SystemParameter.{IsSystemParameter}
use bms_bridge.Pylontech.Payload
use bms_bridge.Jk.Types.{JkCellInfo, JkPackInfo, JkSettings}
use bms_bridge.Pylontech.Responder.{
  echoed_cmd_value, ok_response, dc_to_k10, clamp_u16, clamp_i16, scale_capacity_to_u16,
  module_voltage_from_cell, analog_response, alarm_response, build_alarm_response,
  system_param_response, build_system_param_response, chgmgmt_response, build_chgmgmt_response,
}

pub clamp_i16-IsI16 : (z : ℤ) → IsI16 (clamp_i16 z)
unfolding clamp_i16
clamp_i16-IsI16 (pos n) = ground arith
clamp_i16-IsI16 (negsuc n) = ground arith

-- A value that fits is kept, and any other becomes the nearer end of the range.
pub clamp_u16-eq_min : (v : ℕ) → clamp_u16 v ≡ min v 65535
unfolding clamp_u16
clamp_u16-eq_min v = omega arith

dc_to_k10-IsWord : (z : ℤ) → IsWord (dc_to_k10 z)
unfolding dc_to_k10
dc_to_k10-IsWord z = u16_of-lt _

scale-IsWord :
    (t r : ℕ)
    → IsWord (scale_capacity_to_u16 t r).total_mah × IsWord (scale_capacity_to_u16 t r).remain_mah
unfolding scale_capacity_to_u16
scale-IsWord t r = ground arith

echoed-IsByte : (req : PylontechFrame) → IsFrame req → IsByte (echoed_cmd_value req)
unfolding echoed_cmd_value
echoed-IsByte req v = go req.info v.info
  where
    go : (info : Bytes) → AreBytes info → IsByte (elim info [ [] ↦ req.adr | b ∷ bs ↦ b ])
    go [] h = v.adr
    go (b ∷ bs) h = h.0

-- The cells of a battery, as the protocols deliver them.
pub record AreCells (cells : JkCellInfo) : Type 0 where
  pub words : AreWords cells.voltages_mv
  pub few : length cells.voltages_mv ≤ 255

pub analog_response-IsAnalog :
    (req : PylontechFrame) (cells : JkCellInfo) (pack : JkPackInfo)
    → IsFrame req
    → AreCells cells
    → IsAnalog (analog_response req cells pack)
unfolding analog_response
analog_response-IsAnalog req cells pack v c = record {
  infoflag = omega arith;
  command = echoed-IsByte req v;
  cells = c.words;
  few_cells = c.few;
  temperatures = (dc_to_k10-IsWord _, (dc_to_k10-IsWord _, (dc_to_k10-IsWord _, tt)));
  few_temperatures = omega arith;
  current = clamp_i16-IsI16 _;
  module_voltage = omega (arith, clamp_u16-eq_min);
  remain_capacity = (scale-IsWord _ _).1;
  user_defined = omega arith;
  total_capacity = (scale-IsWord _ _).0;
  cycles = omega (arith, clamp_u16-eq_min);
}

-- An answer as the inverter receives it: it parses to a frame from the module that was asked.
pub record Answers (req : PylontechFrame) (rest bytes info : Bytes) : Type 0 where
  pub parsed :
      try_parse_pylontech (bytes ++ rest)
      ≡ frame
          (length bytes)
          (record { ver = req.ver; adr = req.adr; cid1 = 0x46; cid2 = 0; info = info })

answers :
    (req : PylontechFrame) (rest info : Bytes)
    → IsFrame req
    → AreBytes info
    → Answers req rest (build_pylontech (record (ok_response req) { info = info })) info
answers req rest info v h = record {
  parsed =
      try_parse-build (record (ok_response req) { info = info }) rest
        (record { ver = v.ver; adr = v.adr; cid1 = omega arith; cid2 = omega arith; info = h });
}

-- The settings as the protocols deliver them.
pub record AreSettings (s : JkSettings) : Type 0 where
  pub ovp : IsWord s.cell_ovp_mv
  pub uvpr : IsWord s.cell_uvpr_mv
  pub uvp : IsWord s.cell_uvp_mv

module_voltage-IsWord : (mv n : ℕ) → IsWord (module_voltage_from_cell mv n)
unfolding module_voltage_from_cell
module_voltage-IsWord mv n = omega arith

pub system_param_response-IsSystemParameter :
    (limits : JkSettings) → AreSettings limits → IsSystemParameter (system_param_response limits)
unfolding system_param_response
system_param_response-IsSystemParameter limits s = record {
  infoflag = omega arith;
  cell_high_voltage_limit_mv = s.ovp;
  cell_low_voltage_limit_mv = s.uvpr;
  cell_under_voltage_limit_mv = s.uvp;
  charge_high_temp_k10 = dc_to_k10-IsWord _;
  charge_low_temp_k10 = dc_to_k10-IsWord _;
  charge_current_limit_01a = clamp_i16-IsI16 _;
  module_high_voltage_limit_mv = module_voltage-IsWord _ _;
  module_low_voltage_limit_mv = module_voltage-IsWord _ _;
  module_under_voltage_limit_mv = module_voltage-IsWord _ _;
  discharge_high_temp_k10 = dc_to_k10-IsWord _;
  discharge_low_temp_k10 = dc_to_k10-IsWord _;
  discharge_current_limit_01a = clamp_i16-IsI16 _;
}

-- Likewise the system parameters, for settings whose cell limits are 16-bit words.
pub build_system_param_response-Answers :
    (req : PylontechFrame) (limits : JkSettings) (rest : Bytes)
    → IsFrame req
    → AreSettings limits
    → (info : Bytes) × Answers req rest (build_system_param_response req limits) info
      × (Payload.SystemParameter.deserialize info ≡ (system_param_response limits, true))
unfolding build_system_param_response
build_system_param_response-Answers req limits rest v s =
    let valid = system_param_response-IsSystemParameter limits s in
    let info = Payload.SystemParameter.serialize (system_param_response limits) [] in
    (
      info,
      answers req rest info v (Payload.SystemParameter.serialize-IsOutput _ valid.infoflag).bytes,
      rw (← append-nil info) (Payload.SystemParameter.deserialize-serialize _ [] valid),
    )

replicate-AreBytes : (n : ℕ) → AreBytes (replicate n 0)
replicate-AreBytes zero = tt
replicate-AreBytes (suc n) = (omega arith, replicate-AreBytes n)

-- The alarm answer parses to a frame of the module that was asked. Its payload has the cell count
-- and the temperature count of the analog answer for the same cells, and a normal state for each.
pub build_alarm_response-Answers :
    (req : PylontechFrame) (cells : JkCellInfo) (pack : JkPackInfo) (rest : Bytes)
    → IsFrame req
    → AreCells cells
    → (info : Bytes) × Answers req rest (build_alarm_response req cells) info
      × (info
          ≡ 0
            ∷ echoed_cmd_value req
            ∷ length (analog_response req cells pack).cell_voltages_mv
            ∷ (replicate (length cells.voltages_mv) 0
                ++ (length (analog_response req cells pack).temperatures_k10
                    ∷ 0
                    ∷ 0
                    ∷ 0
                    ∷ 0
                    ∷ 0
                    ∷ 0
                    ∷ 0
                    ∷ 0x0E
                    ∷ 0
                    ∷ 0
                    ∷ 0
                    ∷ [])))
unfolding build_alarm_response alarm_response analog_response
build_alarm_response-Answers req cells pack rest v c =
    let info = Payload.Alarm.serialize (alarm_response req cells) [] in
    (
      info,
      answers req rest info v
          (Payload.Alarm.serialize-IsOutput _ (record {
            dataflag = omega arith;
            command = echoed-IsByte req v;
            cells = replicate-AreBytes (length cells.voltages_mv);
            temperatures = omega arith;
            charge_current = omega arith;
            module_voltage = omega arith;
            discharge_current = omega arith;
            status_1 = omega arith;
            status_2 = omega arith;
            status_3 = omega arith;
            errors_1_8 = omega arith;
            errors_9_16 = omega arith;
          })).bytes,
      let count : u8 (length {A = ℕ} (replicate (length cells.voltages_mv) 0))
              ≡ length cells.voltages_mv =
            omega (arith, length-replicate {A = ℕ} (length cells.voltages_mv) 0, c.few) in
          rw (Payload.Alarm.serialize-eq (alarm_response req cells), count),
    )

-- The charge management answer parses to a frame of the module that was asked, with the payload's
-- bytes as they were put in.
pub build_chgmgmt_response-Answers :
    (req : PylontechFrame) (pack : JkPackInfo) (limits : JkSettings) (rest : Bytes)
    → IsFrame req
    → Answers req rest
        (build_chgmgmt_response req pack limits)
        (Payload.ChargeManagement.serialize (chgmgmt_response req pack limits) [])
unfolding build_chgmgmt_response chgmgmt_response
build_chgmgmt_response-Answers req pack limits rest v =
    answers req rest _ v (Payload.ChargeManagement.serialize-IsOutput _ (echoed-IsByte req v)).bytes
