-- ===== src/Jk/Driver/Feeding.antt =====
-- What the driver makes of the bytes it is fed.
use bms_bridge.Base.{
  ℕ, ◌≡◌, ◌≢◌, inl, refl, ◌∙◌, ap, [], ◌∷◌, ◌++◌, All, none, some, Bool, true, false, not, ◌==◌,
  if◌then◌else◌, Bytes, arith,
}
use bms_bridge.Battery.Protocol.{Parsed, nothing_parsed}
use bms_bridge.Jk.Wire.{byte_at, starts_with_response_magic, jk_response_frame_type}
use bms_bridge.Jk.Parse.{
  parse_cell_info, parse_settings, is_response_of, cell_info, settings, looks_like_bitmask,
}
use bms_bridge.Jk.Wire.{le32}
use bms_bridge.Jk.Assembler.{JkFrameAssembler, push_chunk, take_complete_frame}
use bms_bridge.Jk.Assembler.Delivery.{
  IsResponse, push_chunk-noise, push_chunk-append, whole-response,
}
use bms_bridge.Jk.Assembler.Invariant.{Assembling, push_chunk-Assembling}
use bms_bridge.Jk.Driver.{handle_frame, keep_telemetry, keep_settings, take_frames, feed}

-- Two rounds take whatever is ready.
take_frames-enough :
    (buf ready : Bytes) (out : Parsed)
    → (take_frames 2 (record { buf = buf; ready = ready }) out).0 ≡ record { buf = buf; ready = [] }
unfolding take_frames take_complete_frame
take_frames-enough buf [] out = refl
take_frames-enough buf (b ∷ bs) out = refl

taken : (buf : Bytes) → (take_complete_frame (record { buf = buf; ready = [] })).0 ≡ none
unfolding take_complete_frame
taken buf = refl

-- The loop over the ready frames ends by its own test: behind it no frame is left to take. The
-- buffer is a proper prefix of a response again, so the next call may go on from it.
pub feed-Assembling :
    (a : JkFrameAssembler) (bytes : Bytes)
    → Assembling a
    → Assembling (feed a bytes).0 × ((take_complete_frame (feed a bytes).0).0 ≡ none)
unfolding feed
feed-Assembling a bytes v =
    let pushed = push_chunk bytes a in
    let kept = push_chunk-Assembling bytes a v in
    let e = take_frames-enough pushed.buf pushed.ready nothing_parsed in
    rw e (record { short = kept.short; prefix = kept.prefix; whole = inl refl }, taken pushed.buf)

take_frames-one :
    (b : ℕ) (bs : Bytes)
    → take_frames 2 (record { buf = []; ready = b ∷ bs }) nothing_parsed
      ≡ (record { buf = []; ready = [] }, handle_frame (b ∷ bs) nothing_parsed)
unfolding take_frames take_complete_frame
take_frames-one b bs = refl

feed-frame :
    (noise f : Bytes)
    → All (λ b. b ≢ 0x55) noise
    → IsResponse f
    → feed (record { buf = []; ready = [] }) (noise ++ f)
      ≡ (record { buf = []; ready = [] }, handle_frame f nothing_parsed)
unfolding feed
feed-frame noise [] h v = absurd (omega (arith, v.size))
feed-frame noise (b ∷ bs) h v =
    let e =
      push_chunk-append noise (b ∷ bs) (record { buf = []; ready = [] })
      ∙ ap (push_chunk (b ∷ bs)) (push_chunk-noise noise [] h)
      ∙ whole-response (b ∷ bs) [] v in
    rw e (take_frames-one b bs)

starts : (f : Bytes) → IsResponse f → starts_with_response_magic f ≡ true
unfolding starts_with_response_magic
starts f v =
    rw
      (
        v.size,
        v.magic 0 (omega arith),
        v.magic 1 (omega arith),
        v.magic 2 (omega arith),
        v.magic 3 (omega arith),
      )
      refl

frame_type : (f : Bytes) → IsResponse f → jk_response_frame_type f ≡ some (byte_at f 4)
unfolding jk_response_frame_type
frame_type f v = rw (v.size, starts f v) refl

is_response : (t : ℕ) (f : Bytes) → IsResponse f → is_response_of t f ≡ (byte_at f 4 == t)
unfolding is_response_of
is_response t f v = rw (v.size, starts f v) refl

handle_cell_info :
    (f : Bytes)
    → IsResponse f
    → byte_at f 4 ≡ 2
    → handle_frame f nothing_parsed ≡ record {
      telemetry = some (record {
        cells = (cell_info (not (looks_like_bitmask (le32 f 54))) f).0;
        pack = (cell_info (not (looks_like_bitmask (le32 f 54))) f).1;
      });
      settings = none;
    }
unfolding handle_frame keep_telemetry parse_cell_info
handle_cell_info f v e =
    rw (frame_type f v, handle_frame, e, is_response 2 f v, keep_telemetry, parse_cell_info, e) refl

handle_settings :
    (f : Bytes)
    → IsResponse f
    → byte_at f 4 ≡ 1
    → handle_frame f nothing_parsed ≡ record { telemetry = none; settings = some (settings f) }
unfolding handle_frame keep_settings parse_settings
handle_settings f v e =
    rw (frame_type f v, handle_frame, e, is_response 1 f v, keep_settings, parse_settings, e) refl

is_not : (a b : ℕ) → a ≢ b → (a == b) ≡ false
is_not a b h = ground arith

if_same : {S : Type 0} (b : Bool) (s : S) → (if b then s else s) ≡ s
if_same true s = refl
if_same false s = refl

handle_other :
    (f : Bytes)
    → IsResponse f
    → byte_at f 4 ≢ 1
    → byte_at f 4 ≢ 2
    → handle_frame f nothing_parsed ≡ nothing_parsed
unfolding handle_frame
handle_other f v e1 e2 =
    rw (frame_type f v, handle_frame, is_not (byte_at f 4) 2 e2, is_not (byte_at f 4) 1 e1)
      (if_same (byte_at f 4 == 3) nothing_parsed)

-- What a response of each type tells, by its type byte.
abbrev pub Told : Bytes → Parsed → Type 0
Told f out =
    (byte_at f 4 ≡ 2
      → out ≡ record {
        telemetry = some (record {
          cells = (cell_info (not (looks_like_bitmask (le32 f 54))) f).0;
          pack = (cell_info (not (looks_like_bitmask (le32 f 54))) f).1;
        });
        settings = none;
      })
    × (byte_at f 4 ≡ 1 → out ≡ record { telemetry = none; settings = some (settings f) })
    × (byte_at f 4 ≢ 1 → byte_at f 4 ≢ 2 → out ≡ nothing_parsed)

-- A response behind bytes without 0x55, fed to a driver that has just been reset, leaves the
-- assembler empty and tells: the cell and pack telemetry if its type is 2, in the layout that byte
-- 54 indicates; the settings if its type is 1; and nothing otherwise.
pub feed-Told :
    (noise f : Bytes)
    → All (λ b. b ≢ 0x55) noise
    → IsResponse f
    → ((feed (record { buf = []; ready = [] }) (noise ++ f)).0 ≡ record { buf = []; ready = [] })
      × Told f (feed (record { buf = []; ready = [] }) (noise ++ f)).1
feed-Told noise f h v =
    rw (feed-frame noise f h v)
      (refl, (handle_cell_info f v, handle_settings f v, handle_other f v))
