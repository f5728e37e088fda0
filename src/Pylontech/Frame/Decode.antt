-- ===== src/Pylontech/Frame/Decode.antt =====
-- Decoding of the digits that the builder writes: index by index, as the parser reads them.
use bms_bridge.Base.{
  ℕ, zero, suc, ◌+◌, ◌*◌, ◌/◌, ◌%◌, ◌<◌, ◌≡◌, refl, sym, ap, ◌∙◌, some, [], ◌∷◌, ◌++◌, append_assoc,
  append-nil, arith, ◌==◌, false, length, length-append, Bytes, IsByte, AreBytes, u16, u8,
}
use bms_bridge.Pylontech.Hex.{
  hex_char, put_hex8, put_hex16_be, length_field, chksum_over, hex_val-hex_char,
}
use bms_bridge.Pylontech.Frame.{
  PylontechFrame, try_parse_pylontech, parse_at, scan_until, decode_byte, decode_info, put_all,
  build_body, build_pylontech, eoi_byte, soi_byte,
}

-- The two digits of each byte, high first.
unfoldable pub hex_bytes : Bytes → Bytes
hex_bytes [] = []
hex_bytes (b ∷ bs) = hex_char (b / 16) ∷ hex_char (b % 16) ∷ hex_bytes bs

pub hex_bytes-append : (xs ys : Bytes) → hex_bytes (xs ++ ys) ≡ hex_bytes xs ++ hex_bytes ys
unfolding hex_bytes
hex_bytes-append [] ys = refl
hex_bytes-append (x ∷ xs) ys = rw (hex_bytes-append xs ys)

pub length-hex_bytes : (xs : Bytes) → length (hex_bytes xs) ≡ length xs * 2
unfolding hex_bytes
length-hex_bytes [] = refl
length-hex_bytes (x ∷ xs) = omega (arith, length-hex_bytes xs)

pub put_all-eq : (bs out : Bytes) → put_all out bs ≡ out ++ hex_bytes bs
unfolding put_all put_hex8 hex_bytes
put_all-eq [] out = sym (append-nil out)
put_all-eq (b ∷ bs) out = put_all-eq bs _ ∙ append_assoc out _ (hex_bytes bs)

-- The bytes that a frame carries in front of its checksum.
abbrev pub frame_bytes : PylontechFrame → Bytes
frame_bytes f =
    let field = length_field (u16 (length f.info * 2)) in
    f.ver ∷ f.adr ∷ f.cid1 ∷ f.cid2 ∷ u8 (field / 256) ∷ u8 (field % 256) ∷ f.info

pub build_body-eq : (f : PylontechFrame) → build_body f ≡ hex_bytes (frame_bytes f)
unfolding build_body put_hex16_be put_hex8 hex_bytes
build_body-eq f = put_all-eq f.info _

abbrev pub checksum_bytes : PylontechFrame → Bytes
checksum_bytes f =
    let cs = chksum_over (hex_bytes (frame_bytes f)) in u8 (cs / 256) ∷ u8 (cs % 256) ∷ []

-- The frame as a whole: all its bytes in digits, between the two delimiters.
pub build_pylontech-eq :
    (f : PylontechFrame)
    → build_pylontech f
      ≡ soi_byte ∷ (hex_bytes (frame_bytes f ++ checksum_bytes f) ++ eoi_byte ∷ [])
unfolding build_pylontech put_hex16_be put_hex8 hex_bytes
build_pylontech-eq f =
    rw (build_body-eq f, hex_bytes-append) (ap (◌∷◌ soi_byte) (simp append_assoc))

-- A digit is never a delimiter.
pub hex_char-ne-eoi : (v : ℕ) → v < 16 → (hex_char v == eoi_byte) ≡ false
unfolding hex_char
hex_char-ne-eoi v h = ground arith

pub scan_until-hex_bytes :
    (bs rest : Bytes)
    → AreBytes bs
    → scan_until eoi_byte (hex_bytes bs ++ eoi_byte ∷ rest) ≡ length bs * 2
unfolding scan_until hex_bytes
scan_until-hex_bytes [] rest h = refl
scan_until-hex_bytes (b ∷ bs) rest h =
    rw (hex_char-ne-eoi (b / 16) (omega arith), hex_char-ne-eoi (b % 16) (omega arith))
      (omega (arith, scan_until-hex_bytes bs rest h.1))

-- Behind any byte `x`, pair `i` decodes to byte `i`.
pub decode_byte-hex_bytes :
    (x : ℕ) (pre : Bytes) (b : ℕ) (tl : Bytes) (i : ℕ)
    → i ≡ length pre
    → IsByte b
    → decode_byte (x ∷ (hex_bytes pre ++ (hex_char (b / 16) ∷ hex_char (b % 16) ∷ tl))) i ≡ some b
unfolding decode_byte hex_bytes
decode_byte-hex_bytes x [] b tl zero e h =
    rw (hex_val-hex_char (b / 16) (omega arith), hex_val-hex_char (b % 16) (omega arith))
      (ap some (omega arith))
decode_byte-hex_bytes x [] b tl (suc i) e h = absurd (omega arith)
decode_byte-hex_bytes x (p ∷ pre) b tl zero e h = absurd (omega arith)
decode_byte-hex_bytes x (p ∷ pre) b tl (suc i) e h =
    let first : 1 + suc i * 2 ≡ suc (suc (1 + i * 2)) = omega arith in
    let second : 1 + suc i * 2 + 1 ≡ suc (suc (1 + i * 2 + 1)) = omega arith in
    rw (second, first) (decode_byte-hex_bytes (hex_char (p % 16)) pre b tl i (omega arith) h)

hex_bytes-shift :
    (pre : Bytes) (b : ℕ) (rest : Bytes)
    → hex_bytes (pre ++ b ∷ []) ++ rest ≡ hex_bytes pre ++ (hex_bytes (b ∷ []) ++ rest)
hex_bytes-shift pre b rest = rw (hex_bytes-append, append_assoc)

pub decode_info-hex_bytes :
    (x : ℕ) (pre bs tl : Bytes) (i : ℕ)
    → i ≡ length pre
    → AreBytes bs
    → decode_info (x ∷ (hex_bytes pre ++ (hex_bytes bs ++ tl))) i (length bs) ≡ some bs
unfolding decode_info hex_bytes
decode_info-hex_bytes x pre [] tl i e h = refl
decode_info-hex_bytes x pre (b ∷ bs) tl i e h =
    let ih =
      decode_info-hex_bytes x (pre ++ b ∷ []) bs tl (i + 1)
        (omega (arith, length-append pre (b ∷ []))) h.1 in
    rw (
      decode_byte-hex_bytes x pre b (hex_bytes bs ++ tl) i e h.0,
      rw (hex_bytes-shift pre b (hex_bytes bs ++ tl)) at ih,
    )

-- A body with no EOI byte, between its delimiters, is what the parser looks at.
pub try_parse-delimited :
    (body rest : Bytes)
    → scan_until eoi_byte (body ++ eoi_byte ∷ rest) ≡ length body
    → try_parse_pylontech (soi_byte ∷ (body ++ eoi_byte ∷ rest))
      ≡ parse_at (soi_byte ∷ (body ++ eoi_byte ∷ rest)) (1 + length body)
unfolding try_parse_pylontech
try_parse-delimited body rest e =
    rw (first, e) (ground (arith, length-append body (eoi_byte ∷ rest)))
  where
    first : scan_until soi_byte (soi_byte ∷ (body ++ eoi_byte ∷ rest)) ≡ 0
    first = unfold scan_until in refl
