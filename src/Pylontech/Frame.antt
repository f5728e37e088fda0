-- ===== src/Pylontech/Frame.antt =====
-- One frame on the wire: try_parse_pylontech and build_pylontech of src/pylontech.cpp.
--
-- The source returns an `int`: the bytes consumed, 0 for "need more", or minus the bytes to drop.
-- Here these are three constructors; buffers are shorter than 2 ^ 31. The frame `out` is
-- only read by callers after a positive result, so it is a field of that result.
mod Decode
mod Reads
pub mod Bounds
pub mod RoundTrip
pub mod Sound
use bms_bridge.Base.{
  ℕ, zero, suc, ◌+◌, ◌-◌, ◌*◌, ◌/◌, ◌%◌, Option, none, some, List, [], ◌∷◌, ◌++◌, ◌||◌, not, ltb,
  ◌==◌, if◌then◌else◌, length, get_or, take, drop, Bytes, u16, ◌>>=◌,
}
use bms_bridge.Pylontech.Hex.{hex_val, put_hex8, put_hex16_be, length_field, chksum_over}

pub record PylontechFrame : Type 0 where
  pub ver : ℕ
  pub adr : ℕ
  pub cid1 : ℕ
  pub cid2 : ℕ
  pub info : Bytes

-- The member initialisers of the struct.
abbrev pub default_frame : PylontechFrame
default_frame = record { ver = 0x20; adr = 0; cid1 = 0x46; cid2 = 0; info = [] }

pub data Outcome : Type 0 where
  more : Outcome
  discard : ℕ → Outcome
  frame : ℕ → PylontechFrame → Outcome

abbrev pub soi_byte : ℕ
soi_byte = 0x7E

abbrev pub eoi_byte : ℕ
eoi_byte = 0x0D

abbrev pub min_body_len : ℕ
min_body_len = 16

abbrev pub max_frame_len : ℕ
max_frame_len = 4096

-- The loops `while (i < len && buf[i] != b) ++i`: the bytes in front of the first `b`.
unfoldable pub scan_until : ℕ → Bytes → ℕ
scan_until b [] = 0
scan_until b (x ∷ xs) = let rest = scan_until b xs in if x == b then 0 else suc rest

-- The two digits of pair `pair_idx` behind the SOI byte.
unfoldable pub decode_byte : Bytes → ℕ → Option ℕ
decode_byte buf pair_idx = do
  hi ← hex_val (get_or buf (1 + pair_idx * 2) 0)
  lo ← hex_val (get_or buf (1 + pair_idx * 2 + 1) 0)
  some (hi * 16 + lo)

-- The loop that fills `out.info`.
unfoldable pub decode_info : Bytes → ℕ → ℕ → Option Bytes
decode_info buf pair_idx zero = some []
decode_info buf pair_idx (suc n) = do
  b ← decode_byte buf pair_idx
  bs ← decode_info buf (pair_idx + 1) n
  some (b ∷ bs)

-- Everything between the length test and the `return`; `none` stands for each
-- `return -static_cast<int>(eoi + 1)`.
unfoldable pub decode_body : Bytes → ℕ → Option PylontechFrame
decode_body buf body_len = do
  ver ← decode_byte buf 0
  adr ← decode_byte buf 1
  cid1 ← decode_byte buf 2
  cid2 ← decode_byte buf 3
  len_hi ← decode_byte buf 4
  len_lo ← decode_byte buf 5
  let info_bytes = (body_len - min_body_len) / 2
  let cs_pair_idx = 6 + info_bytes
  cs_hi ← decode_byte buf cs_pair_idx
  cs_lo ← decode_byte buf (cs_pair_idx + 1)
  let expected = chksum_over (take (body_len - 4) (drop 1 buf))
  let actual = u16 (cs_hi * 256 + cs_lo)
  if not (expected == actual) then none else do
    info ← decode_info buf 6 info_bytes
    some (record { ver = ver; adr = adr; cid1 = cid1; cid2 = cid2; info = info })

-- With `eoi` found.
unfoldable pub parse_at : Bytes → ℕ → Outcome
parse_at buf eoi =
    let body_len : ℕ = eoi - 1 in
    if ltb body_len min_body_len || not (body_len % 2 == 0)
    then discard (eoi + 1)
    else elim (decode_body buf body_len) [ none ↦ discard (eoi + 1) | some f ↦ frame (eoi + 1) f ]

unfoldable pub try_parse_pylontech : Bytes → Outcome
try_parse_pylontech buf =
    let len = length buf in
    if len == 0
    then more
    else let soi = scan_until soi_byte buf in
      if soi == len
      then discard len
      else if ltb 0 soi
      then discard soi
      else let eoi = 1 + scan_until eoi_byte (drop 1 buf) in
        if eoi == len then if ltb max_frame_len len then discard 1 else more else parse_at buf eoi

unfoldable pub put_all : Bytes → Bytes → Bytes
put_all out [] = out
put_all out (b ∷ bs) = put_all (put_hex8 out b) bs

-- `lenid` is a uint16_t.
unfoldable pub build_body : PylontechFrame → Bytes
unfolding put_all
build_body f =
    let head = put_hex8 (put_hex8 (put_hex8 (put_hex8 [] f.ver) f.adr) f.cid1) f.cid2 in
    let lenid = u16 (length f.info * 2) in put_all (put_hex16_be head (length_field lenid)) f.info

unfoldable pub build_pylontech : PylontechFrame → Bytes
build_pylontech f =
    let body = build_body f in put_hex16_be (soi_byte ∷ body) (chksum_over body) ++ (eoi_byte ∷ [])
