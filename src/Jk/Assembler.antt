-- ===== src/Jk/Assembler.antt =====
-- JkFrameAssembler of src/jk_protocol.cpp: 300-byte frames out of arbitrary notify chunks.
pub mod Delivery
pub mod Invariant
use bms_bridge.Base.{
  ℕ, ◌-◌, List, [], ◌∷◌, ◌++◌, Option, none, some, Bool, true, false, not, leb, ◌==◌, ◌&&◌,
  if◌then◌else◌, length, take, Bytes,
}
use bms_bridge.Jk.Wire.{response_size, response_magic, byte_at, jk_crc8}

pub record JkFrameAssembler : Type 0 where
  pub buf : Bytes
  pub ready : Bytes

abbrev pub empty : Bytes → Bool
empty [] = true
empty (b ∷ bs) = false

-- A full buffer: ready if its checksum fits, dropped if not.
unfoldable pub complete : Bytes → Bytes → JkFrameAssembler
complete buf ready =
    let computed = jk_crc8 (take (response_size - 1) buf) in
    let received = byte_at buf (response_size - 1) in
    record { buf = []; ready = if computed == received then buf else ready }

-- The loop's body behind buf_.push_back(b).
unfoldable pub after_push : Bytes → Bytes → JkFrameAssembler
after_push buf ready =
    let pos = length buf - 1 in
    if leb (length buf) 4 && not (byte_at buf pos == byte_at response_magic pos)
    then record { buf = []; ready = ready }
    else if length buf == response_size
    then complete buf ready
    else record { buf = buf; ready = ready }

unfoldable pub push_byte : ℕ → JkFrameAssembler → JkFrameAssembler
push_byte b a = if empty a.buf && not (b == 0x55) then a else after_push (a.buf ++ b ∷ []) a.ready

unfoldable pub push_chunk : Bytes → JkFrameAssembler → JkFrameAssembler
push_chunk [] a = a
push_chunk (b ∷ bs) a = push_chunk bs (push_byte b a)

-- The frame, if one is ready, and the assembler without it.
unfoldable pub take_complete_frame : JkFrameAssembler → Option Bytes × JkFrameAssembler
take_complete_frame a = if empty a.ready then (none, a) else (some a.ready, record a { ready = [] })

unfoldable pub reset : JkFrameAssembler → JkFrameAssembler
reset a = record { buf = []; ready = [] }
