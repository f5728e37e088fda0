-- ===== src/Jk/Wire.antt =====
-- The JK wire format of src/jk_protocol.cpp: little-endian fields, checksum, request, frame type.
use bms_bridge.Base.{
  ℕ, ◌+◌, ◌*◌, ◌/◌, [], ◌∷◌, ◌++◌, Option, none, some, Bool, not, ltb, leb, ◌==◌, ◌&&◌,
  if◌then◌else◌, length, get_or, drop, take, replicate, Bytes, u8, u16, ℤ, i16_of, i32_of,
}

abbrev pub request_size : ℕ
request_size = 20

abbrev pub response_size : ℕ
response_size = 300

abbrev pub request_magic : Bytes
request_magic = 0xAA ∷ 0x55 ∷ 0x90 ∷ 0xEB ∷ []

abbrev pub response_magic : Bytes
response_magic = 0x55 ∷ 0xAA ∷ 0xEB ∷ 0x90 ∷ []

abbrev pub cmd_device_info : ℕ
cmd_device_info = 0x97

abbrev pub cmd_cell_info : ℕ
cmd_cell_info = 0x96

abbrev pub frame_type_settings : ℕ
frame_type_settings = 0x01

abbrev pub frame_type_cell_info : ℕ
frame_type_cell_info = 0x02

abbrev pub frame_type_device_info : ℕ
frame_type_device_info = 0x03

-- `p[i]`. Every caller has checked the length; behind the end this reads 0.
abbrev pub byte_at : Bytes → ℕ → ℕ
byte_at p i = get_or p i 0

unfoldable pub le16 : Bytes → ℕ → ℕ
le16 p i = byte_at p i + byte_at p (i + 1) * 256

unfoldable pub le16s : Bytes → ℕ → ℤ
le16s p i = i16_of (le16 p i)

unfoldable pub le32 : Bytes → ℕ → ℕ
le32 p i =
    byte_at p i + byte_at p (i + 1) * 256 + byte_at p (i + 2) * 65536 + byte_at p (i + 3) * 16777216

unfoldable pub le32s : Bytes → ℕ → ℤ
le32s p i = i32_of (le32 p i)

-- The sum runs in a uint16_t.
unfoldable pub crc_sum : ℕ → Bytes → ℕ
crc_sum s [] = s
crc_sum s (b ∷ bs) = crc_sum (u16 (s + b)) bs

unfoldable pub jk_crc8 : Bytes → ℕ
jk_crc8 bytes = u8 (crc_sum 0 bytes)

-- LeWriter::u32
unfoldable pub put_le32 : ℕ → Bytes → Bytes
put_le32 v out = out ++ u8 v ∷ u8 (v / 256) ∷ u8 (v / 65536) ∷ u8 (v / 16777216) ∷ []

pub record JkRequest : Type 0 where
  pub command : ℕ
  pub value_length : ℕ
  pub value : ℕ

unfoldable pub serialize : JkRequest → Bytes → Bytes
serialize r out =
    let start = length out in
    let w = out ++ request_magic in
    let w = w ++ r.command ∷ [] in
    let w = w ++ r.value_length ∷ [] in
    let w = put_le32 r.value w in
    let w = w ++ replicate 9 0 in w ++ jk_crc8 (take 19 (drop start w)) ∷ []

unfoldable pub starts_with_response_magic : Bytes → Bool
starts_with_response_magic p =
    leb 4 (length p)
    && byte_at p 0 == 0x55
    && byte_at p 1 == 0xAA
    && byte_at p 2 == 0xEB
    && byte_at p 3 == 0x90

unfoldable pub jk_response_frame_type : Bytes → Option ℕ
jk_response_frame_type frame =
    if ltb (length frame) response_size
    then none
    else if not (starts_with_response_magic frame)
    then none
    else some (byte_at frame 4)
