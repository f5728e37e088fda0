-- ===== src/Pylontech/Responder/Normal.antt =====
-- The return code of the answers.
use bms_bridge.Base.{refl, ◌≡◌, AreBytes, Bytes, arith}
use bms_bridge.Pylontech.Frame.{PylontechFrame, build_pylontech}
use bms_bridge.Pylontech.Frame.RoundTrip.{IsFrame}
use bms_bridge.Pylontech.Payload
use bms_bridge.Jk.Types.{JkCellInfo, JkPackInfo, JkSettings}
use bms_bridge.Pylontech.Responder.{ok_response, build_analog_response, build_system_param_response}
use bms_bridge.Pylontech.Responder.Answers.{
  AreCells, AreSettings, analog_response-IsAnalog, system_param_response-IsSystemParameter,
}

-- An answer is a built frame whose CID2 is the return code 0x00, normal.
pub record IsNormal (bytes : Bytes) : Type 0 where
  pub answer : PylontechFrame
  pub valid : IsFrame answer
  pub rtn : answer.cid2 ≡ 0
  pub built : bytes ≡ build_pylontech answer

normal :
    (req : PylontechFrame) (info : Bytes)
    → IsFrame req
    → AreBytes info
    → IsNormal (build_pylontech (record (ok_response req) { info = info }))
normal req info v h = record {
  answer = record (ok_response req) { info = info };
  valid = record { ver = v.ver; adr = v.adr; cid1 = omega arith; cid2 = omega arith; info = h };
  rtn = refl;
  built = refl;
}

pub build_analog_response-IsNormal :
    (req : PylontechFrame) (cells : JkCellInfo) (pack : JkPackInfo)
    → IsFrame req
    → AreCells cells
    → IsNormal (build_analog_response req cells pack)
unfolding build_analog_response
build_analog_response-IsNormal req cells pack v c =
    normal req _ v
      (Payload.Analog.serialize-IsOutput _ (analog_response-IsAnalog req cells pack v c)).bytes

pub build_system_param_response-IsNormal :
    (req : PylontechFrame) (limits : JkSettings)
    → IsFrame req
    → AreSettings limits
    → IsNormal (build_system_param_response req limits)
unfolding build_system_param_response
build_system_param_response-IsNormal req limits v s =
    normal req _ v
      (Payload.SystemParameter.serialize-IsOutput _
        (system_param_response-IsSystemParameter limits s).infoflag).bytes
