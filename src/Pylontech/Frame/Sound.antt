-- ===== src/Pylontech/Frame/Sound.antt =====
-- What a buffer holds when try_parse_pylontech takes a frame from it.
use bms_bridge.Base.{
  ℕ, zero, suc, ◌+◌, ◌-◌, ◌*◌, ◌/◌, ◌%◌, ◌≤◌, ◌<◌, ◌≡◌, refl, subst, sym, ap, ◌∙◌, Option, none,
  some, [], ◌∷◌, ◌++◌, arith, ◌==◌, ==_iff, inl, inr, Bool-cases, bind-eq-some, some_inj, length,
  length-take, get_or, take, drop, take-append_le, Bytes, IsByte, AreBytes, u16,
}
use mathlib.Core.Path.{ap₂, subst₂}
use bms_bridge.Pylontech.Hex.{hex_val, chksum_over}
use bms_bridge.Pylontech.Frame.Bounds.{scan_until-le}
use bms_bridge.Pylontech.Frame.RoundTrip.{IsFrame}
use bms_bridge.Pylontech.Frame.{
  PylontechFrame, frame, scan_until, decode_byte, decode_info, decode_body, parse_at,
  try_parse_pylontech, eoi_byte, soi_byte,
}
use bms_bridge.Pylontech.Frame.Reads.{unhex, Reads, decode_info-unhex, decode_body-Reads, Reads-all}

-- The buffer begins with a frame of `n` bytes that carries `f` and a valid checksum.
pub record Holds (buf : Bytes) (n : ℕ) (f : PylontechFrame) : Type 0 where
  pub body : Bytes
  pub rest : Bytes
  pub len_hi : ℕ
  pub len_lo : ℕ
  pub checksum : ℕ
  pub checksum_lo : ℕ
  pub delimited : buf ≡ soi_byte ∷ (body ++ eoi_byte ∷ rest)
  pub consumed : n ≡ length body + 2
  pub size : length body ≡ 16 + length f.info * 2
  pub no_eoi : scan_until eoi_byte body ≡ length body
  pub digits :
      unhex body
      ≡ some (
          f.ver
          ∷ f.adr
          ∷ f.cid1
          ∷ f.cid2
          ∷ len_hi
          ∷ len_lo
          ∷ (f.info ++ checksum ∷ checksum_lo ∷ []))
  pub summed : chksum_over (take (12 + length f.info * 2) body) ≡ checksum * 256 + checksum_lo

abbrev AtMost : ℕ → Option ℕ → Type 0
AtMost n none = Unit {0}
AtMost n (some v) = v ≤ n

hex_val-AtMost : (c : ℕ) → AtMost 15 (hex_val c)
unfolding hex_val
hex_val-AtMost c = ground arith

decode_byte-IsByte : (buf : Bytes) (i b : ℕ) → decode_byte buf i ≡ some b → IsByte b
unfolding decode_byte
decode_byte-IsByte buf i b h = ground (
  arith,
  hex_val-AtMost (get_or buf (1 + i * 2) 0),
  hex_val-AtMost (get_or buf (1 + i * 2 + 1) 0),
)

length-decode_info :
    (buf : Bytes) (n i : ℕ) (bs : Bytes) → decode_info buf i n ≡ some bs → length bs ≡ n
unfolding decode_info
length-decode_info buf zero i bs h = ground arith
length-decode_info buf (suc n) i bs h =
    let (b, e0, k0) = bind-eq-some (decode_byte buf i) _ h in
    let (cs, e1, k1) = bind-eq-some (decode_info buf (i + 1) n) _ k0 in
    ap length (some_inj (sym k1)) ∙ ap suc (length-decode_info buf n (i + 1) cs e1)

scan_until-split :
    (b : ℕ) (xs : Bytes)
    → scan_until b xs < length xs
    → (xs ≡ take (scan_until b xs) xs ++ b ∷ drop (suc (scan_until b xs)) xs)
      × (scan_until b (take (scan_until b xs) xs) ≡ scan_until b xs)
unfolding scan_until
scan_until-split b [] h = absurd (omega arith)
scan_until-split b (x ∷ xs) h = elim (Bool-cases (x == b)) [
  | inl hit ↦ rw hit (ap (λ y. y ∷ xs) ((==_iff x b).0 hit), refl)
  | inr miss ↦
      let ih = scan_until-split b xs (ground arith) in
      rw miss (ap (◌∷◌ x) ih.0, rw miss (ap suc ih.1))
]

parse_at-inv :
    (buf : Bytes) (eoi n : ℕ) (f : PylontechFrame)
    → parse_at buf eoi ≡ frame n f
    → (n ≡ eoi + 1) × (16 ≤ eoi - 1) × ((eoi - 1) % 2 ≡ 0) × (decode_body buf (eoi - 1) ≡ some f)
unfolding parse_at
parse_at-inv buf eoi n f h = ground arith

try_parse-inv :
    (b : ℕ) (bs : Bytes) (n : ℕ) (f : PylontechFrame)
    → try_parse_pylontech (b ∷ bs) ≡ frame n f
    → (b ≡ soi_byte)
      × (scan_until eoi_byte bs < length bs)
      × (parse_at (b ∷ bs) (1 + scan_until eoi_byte bs) ≡ frame n f)
unfolding try_parse_pylontech scan_until
try_parse-inv b bs n f h = ground (arith, scan_until-le eoi_byte bs)

decode_info-AreBytes :
    (buf : Bytes) (n i : ℕ) (bs : Bytes) → decode_info buf i n ≡ some bs → AreBytes bs
unfolding decode_info
decode_info-AreBytes buf zero i bs h = subst AreBytes (some_inj h) tt
decode_info-AreBytes buf (suc n) i bs h =
    let (b, e0, k0) = bind-eq-some (decode_byte buf i) _ h in
    let (cs, e1, k1) = bind-eq-some (decode_info buf (i + 1) n) _ k0 in
    subst AreBytes (some_inj k1)
      (decode_byte-IsByte buf i b e0, decode_info-AreBytes buf n (i + 1) cs e1)

Reads-IsFrame : (buf : Bytes) (m : ℕ) (f : PylontechFrame) → Reads buf m f → IsFrame f
Reads-IsFrame buf m f r = record {
  ver = decode_byte-IsByte buf 0 f.ver r.at_0;
  adr = decode_byte-IsByte buf 1 f.adr r.at_1;
  cid1 = decode_byte-IsByte buf 2 f.cid1 r.at_2;
  cid2 = decode_byte-IsByte buf 3 f.cid2 r.at_3;
  info = decode_info-AreBytes buf _ 6 f.info r.info;
}

Holds-of :
    (body rest : Bytes) (m n : ℕ) (f : PylontechFrame)
    → length body ≡ m
    → 16 ≤ m
    → m % 2 ≡ 0
    → scan_until eoi_byte body ≡ length body
    → n ≡ m + 2
    → Reads (soi_byte ∷ (body ++ eoi_byte ∷ rest)) m f
    → Holds (soi_byte ∷ (body ++ eoi_byte ∷ rest)) n f
Holds-of body rest m n f lm long even clean size r = record {
  body = body;
  rest = rest;
  len_hi = r.len_hi;
  len_lo = r.len_lo;
  checksum = r.checksum;
  checksum_lo = r.checksum_lo;
  delimited = refl;
  consumed = omega arith;
  size = omega (arith, counted);
  no_eoi = clean;
  digits =
      sym (decode_info-unhex _ soi_byte body (eoi_byte ∷ rest) (omega arith))
      ∙ Reads-all _ m ((m - 16) / 2) f r refl;
  summed =
      subst (λ j. chksum_over (take j body) ≡ r.checksum * 256 + r.checksum_lo)
        (omega (arith, counted))
        (ap chksum_over (sym (take-append_le (m - 4) body (eoi_byte ∷ rest) (omega arith)))
          ∙ r.summed
          ∙ fits);
}
  where
    buf : Bytes
    buf = soi_byte ∷ (body ++ eoi_byte ∷ rest)

    counted : length f.info ≡ (m - 16) / 2
    counted = length-decode_info buf _ 6 f.info r.info

    fits : u16 (r.checksum * 256 + r.checksum_lo) ≡ r.checksum * 256 + r.checksum_lo
    fits = omega (
      arith,
      decode_byte-IsByte buf _ r.checksum r.at_checksum,
      decode_byte-IsByte buf _ r.checksum_lo r.at_checksum_lo,
    )

-- Whenever the parser takes a frame, the buffer starts with SOI, then pairs of digits that spell the
-- frame's header, LENGTH, INFO and a checksum which agrees with the digits in front of it, then EOI;
-- and every field of the frame is a byte.
pub try_parse-Holds :
    (b : ℕ) (bs : Bytes) (n : ℕ) (f : PylontechFrame)
    → try_parse_pylontech (b ∷ bs) ≡ frame n f
    → Holds (b ∷ bs) n f × IsFrame f
try_parse-Holds b bs n f h =
    let (soi, inside, at) = try_parse-inv b bs n f h in
    let (size, long, even, read) = parse_at-inv (b ∷ bs) (1 + scan_until eoi_byte bs) n f at in
    let (cut, clean) = scan_until-split eoi_byte bs inside in
    let k : ℕ = scan_until eoi_byte bs in
    let measured : length (take k bs) ≡ k = omega (arith, length-take k bs) in
    let whole = ap₂ (λ (x : ℕ) (xs : Bytes). x ∷ xs) soi cut in
    let r =
      decode_body-Reads _ k f
        (subst₂ (λ buf m. decode_body buf m ≡ some f) whole (omega arith) read) in
    (
      subst (λ buf. Holds buf n f) (sym whole)
          (Holds-of (take k bs) (drop (suc k) bs) k n f measured (omega arith) (omega arith)
            (clean ∙ sym measured) (omega arith) r),
      Reads-IsFrame _ k f r,
    )
