-- ===== src/Pylontech/Hex.antt =====
-- Hexadecimal text and the two checksums of a frame: the helpers at the head of src/pylontech.cpp.
use bms_bridge.Base.{
  ℕ, ◌+◌, ◌-◌, ◌*◌, ◌/◌, ◌%◌, ◌<◌, ◌≡◌, refl, Option, none, some, [], ◌∷◌, ◌++◌, ◌&&◌, arith, ltb,
  leb, if◌then◌else◌, Bytes, u8, u16, u32,
}

unfoldable pub hex_char : ℕ → ℕ
hex_char v = if ltb v 10 then b'0' + v else b'A' + (v - 10)

-- `none` is the source's -1.
unfoldable pub hex_val : ℕ → Option ℕ
hex_val c =
    if leb b'0' c && leb c b'9'
    then some (c - b'0')
    else if leb b'A' c && leb c b'F'
    then some (c - b'A' + 10)
    else if leb b'a' c && leb c b'f'
    then some (c - b'a' + 10)
    else none

unfoldable pub put_hex8 : Bytes → ℕ → Bytes
put_hex8 out v = out ++ (hex_char (v / 16) ∷ hex_char (v % 16) ∷ [])

unfoldable pub put_hex16_be : Bytes → ℕ → Bytes
put_hex16_be out v = put_hex8 (put_hex8 out (u8 (v / 256))) (u8 (v % 256))

-- The three nibbles of LENID are summed, negated modulo 16, and put above it.
unfoldable pub length_field : ℕ → ℕ
length_field lenid =
    let s : ℕ = u8 (lenid / 256 % 16 + lenid / 16 % 16 + lenid % 16) in
    let lchksum : ℕ = (256 - s) % 16 in u16 (lchksum * 4096 + lenid % 4096)

-- `sum` is a uint32_t; the result is the two's complement of its low half.
sum_bytes : ℕ → Bytes → ℕ
sum_bytes sum [] = sum
sum_bytes sum (b ∷ bs) = sum_bytes (u32 (sum + b)) bs

unfoldable pub chksum_over : Bytes → ℕ
unfolding sum_bytes
chksum_over bs = u16 (65535 - u16 (sum_bytes 0 bs) + 1)

pub hex_val-hex_char : (v : ℕ) → v < 16 → hex_val (hex_char v) ≡ some v
unfolding hex_val hex_char
hex_val-hex_char v h = ground arith

pub chksum_over-lt : (bs : Bytes) → chksum_over bs < 65536
unfolding chksum_over
chksum_over-lt bs = omega arith

-- The nibbles of the LENGTH field, its checksum nibble included, sum to a multiple of 16, and its
-- low twelve bits are LENID.
pub length_field_lem :
    (lenid : ℕ)
    → let f = length_field lenid in
      ((f / 4096 + f / 256 % 16 + f / 16 % 16 + f % 16) % 16 ≡ 0) × (f % 4096 ≡ lenid % 4096)
unfolding length_field
length_field_lem lenid = omega arith

hex_run : put_hex16_be [] 0xE002 ≡ b'E' ∷ b'0' ∷ b'0' ∷ b'2' ∷ []
unfolding put_hex16_be put_hex8 hex_char
hex_run = refl
