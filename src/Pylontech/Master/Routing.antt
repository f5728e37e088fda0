-- ===== src/Pylontech/Master/Routing.antt =====
-- What the master makes of the frames it receives.
use bms_bridge.Base.{
  ℕ, ◌≤◌, [], ◌∷◌, ◌++◌, append-nil, none, some, Bool, true, false, not, ◌==◌, if◌then◌else◌,
  ==_refl, length, Bytes, u8, ℤ, pos, negsuc, IsI16, IsByte, ◌≡◌, inl, refl, subst, arith,
}
use bms_bridge.Jk.Types.{JkCellInfo, JkPackInfo}
use bms_bridge.Battery.Protocol.{nothing_parsed}
use bms_bridge.Pylontech.Frame.{PylontechFrame, build_pylontech, scan_until}
use bms_bridge.Pylontech.Frame.RoundTrip.{IsFrame}
use bms_bridge.Pylontech.Payload
use bms_bridge.Pylontech.Payload.Analog.{AnalogResponse, IsAnalog}
use bms_bridge.Pylontech.Payload.SystemParameter.{SystemParameterResponse, IsSystemParameter}
use bms_bridge.Pylontech.Responder.{dc_to_k10, build_analog_response}
use bms_bridge.Pylontech.Responder.Answers.{AreCells}
use bms_bridge.Pylontech.Responder.Normal.{build_analog_response-IsNormal}
use bms_bridge.Pylontech.Stream.{
  receive-on_line, Settled, Arrivals, on_line, AreArrivals, handle_all,
}
use bms_bridge.Pylontech.Master.{
  k10_to_dc, soc_pct, telemetry_of, settings_of, Progress, handle_frame, handle_analog,
  handle_system_param, PylontechMasterProtocol, feed,
}

abbrev progress : PylontechMasterProtocol → Progress
progress m = record { last_cell_count = m.last_cell_count; out = nothing_parsed }

-- From an empty buffer, feeding frames with noise between them and an unfinished frame behind them
-- handles each frame once, in the order of arrival, and keeps the unfinished one.
pub feed-on_line :
    (m : PylontechMasterProtocol) (arrivals : Arrivals) (tl : Bytes)
    → m.rx ≡ []
    → AreArrivals arrivals
    → Settled tl
    → feed m (on_line arrivals tl) ≡ (
      record m {
        rx = tl;
        last_cell_count =
            (handle_all (handle_frame m.wire_adr) (progress m) arrivals).last_cell_count;
      },
      (handle_all (handle_frame m.wire_adr) (progress m) arrivals).out,
    )
unfolding feed
feed-on_line m arrivals tl e v h =
    rw (e, receive-on_line (handle_frame m.wire_adr) (progress m) arrivals tl v h)

one_frame :
    (m : PylontechMasterProtocol) (f : PylontechFrame) (s : Progress)
    → m.rx ≡ []
    → IsFrame f
    → handle_frame m.wire_adr (progress m) f ≡ s
    → feed m (build_pylontech f)
      ≡ (record m { rx = []; last_cell_count = s.last_cell_count }, s.out)
unfolding scan_until
one_frame m f s e v h =
    let fed = feed-on_line m (([], f) ∷ []) [] e (refl, v, tt) (inl refl) in
    subst (λ xs. feed m xs ≡ (record m { rx = []; last_cell_count = s.last_cell_count }, s.out))
      (append-nil (build_pylontech f))
      (subst
        (λ r.
          feed m (build_pylontech f ++ [])
          ≡ (record m { rx = []; last_cell_count = r.last_cell_count }, r.out))
        h fed)

-- A built frame from the module's own address, tagged with CID2 0x42 and carrying a serialised
-- analog response, yields the telemetry of that response, and the number of its cells is kept.
pub feed-analog :
    (m : PylontechMasterProtocol) (ver cid1 : ℕ) (a : AnalogResponse)
    → m.rx ≡ []
    → IsByte ver
    → IsByte cid1
    → IsByte m.wire_adr
    → IsAnalog a
    → feed m (
        build_pylontech (record {
          ver = ver;
          adr = m.wire_adr;
          cid1 = cid1;
          cid2 = 0x42;
          info = Payload.Analog.serialize a [];
        }))
      ≡ (
        record m { rx = []; last_cell_count = length a.cell_voltages_mv },
        record { telemetry = some (telemetry_of a); settings = none },
      )
unfolding handle_frame handle_analog
feed-analog m ver cid1 a e v c adr w =
    let few : u8 (length a.cell_voltages_mv) ≡ length a.cell_voltages_mv =
      omega (arith, w.few_cells) in
    one_frame m _
      (record {
        last_cell_count = length a.cell_voltages_mv;
        out = record { telemetry = some (telemetry_of a); settings = none };
      })
      e
      (record {
        ver = v;
        adr = adr;
        cid1 = c;
        cid2 = omega arith;
        info = (Payload.Analog.serialize-IsOutput a w).bytes;
      })
      (rw
        (
          ==_refl m.wire_adr,
          ← append-nil (Payload.Analog.serialize a []),
          Payload.Analog.deserialize-serialize a [] w,
          few,
        )
        refl)

-- Likewise CID2 0x47 and a serialised system parameter response yield the settings, with the cell
-- count of the last telemetry.
pub feed-system_param :
    (m : PylontechMasterProtocol) (ver cid1 : ℕ) (sp : SystemParameterResponse)
    → m.rx ≡ []
    → IsByte ver
    → IsByte cid1
    → IsByte m.wire_adr
    → IsSystemParameter sp
    → feed m (
        build_pylontech (record {
          ver = ver;
          adr = m.wire_adr;
          cid1 = cid1;
          cid2 = 0x47;
          info = Payload.SystemParameter.serialize sp [];
        }))
      ≡ (
        record m { rx = [] },
        record { telemetry = none; settings = some (settings_of sp m.last_cell_count) },
      )
unfolding handle_frame handle_system_param
feed-system_param m ver cid1 sp e v c adr w =
    one_frame m _
      (record {
        last_cell_count = m.last_cell_count;
        out = record { telemetry = none; settings = some (settings_of sp m.last_cell_count) };
      })
      e
      (record {
        ver = v;
        adr = adr;
        cid1 = c;
        cid2 = omega arith;
        info = (Payload.SystemParameter.serialize-IsOutput sp w.infoflag).bytes;
      })
      (rw
        (
          ==_refl m.wire_adr,
          ← append-nil (Payload.SystemParameter.serialize sp []),
          Payload.SystemParameter.deserialize-serialize sp [] w,
        )
        refl)

if_same : {S : Type 0} (b : Bool) (s : S) → (if b then s else s) ≡ s
if_same true s = refl
if_same false s = refl

handle_frame-normal :
    (adr : ℕ) (s : Progress) (f : PylontechFrame) → f.cid2 ≡ 0 → handle_frame adr s f ≡ s
unfolding handle_frame
handle_frame-normal adr s f e = rw e (if_same (not (f.adr == adr)) s)

-- A master with no byte buffered takes nothing from the analog answer that the slave builds for any
-- request, from any battery of at most 255 cells with 16-bit voltages, whatever address it comes
-- from: it yields neither telemetry nor settings, and the buffer is empty again.
pub feed-build_analog_response :
    (m : PylontechMasterProtocol) (req : PylontechFrame) (cells : JkCellInfo) (pack : JkPackInfo)
    → m.rx ≡ []
    → IsFrame req
    → AreCells cells
    → feed m (build_analog_response req cells pack) ≡ (record m { rx = [] }, nothing_parsed)
feed-build_analog_response m req cells pack e v c =
    let n = build_analog_response-IsNormal req cells pack v c in
    rw n.built (
      one_frame m n.answer (progress m) e n.valid
        (handle_frame-normal m.wire_adr (progress m) n.answer n.rtn))

-- A temperature survives the way to Kelvin × 10 and back, for every 16-bit value.
pub k10_to_dc-dc_to_k10 : (z : ℤ) → IsI16 z → k10_to_dc (dc_to_k10 z) ≡ z
unfolding k10_to_dc dc_to_k10
k10_to_dc-dc_to_k10 (pos n) h = ground arith
k10_to_dc-dc_to_k10 (negsuc n) h = ground arith

-- The state of charge is a percentage.
pub soc_pct-le : (remain total : ℕ) → soc_pct remain total ≤ 100
unfolding soc_pct
soc_pct-le remain total = ground arith
