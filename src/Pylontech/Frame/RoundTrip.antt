-- ===== src/Pylontech/Frame/RoundTrip.antt =====
-- try_parse_pylontech reads back what build_pylontech writes.
use bms_bridge.Base.{
  ℕ, ◌+◌, ◌-◌, ◌*◌, ◌/◌, ◌%◌, ◌≤◌, ◌≡◌, refl, sym, ap, ◌∙◌, some, [], ◌∷◌, ◌++◌, append_assoc,
  arith, ==_refl, length, length-append, take, drop, take-append, Bytes, IsByte, AreBytes,
  All-append, u16, u8,
}
use bms_bridge.Pylontech.Hex.{length_field, chksum_over, chksum_over-lt}
use bms_bridge.Pylontech.Frame.{
  PylontechFrame, frame, decode_byte, decode_info, decode_body, parse_at, try_parse_pylontech,
  build_pylontech, eoi_byte, soi_byte,
}
use bms_bridge.Pylontech.Frame.Decode.{
  hex_bytes, hex_bytes-append, length-hex_bytes, frame_bytes, checksum_bytes, build_pylontech-eq,
  scan_until-hex_bytes, decode_byte-hex_bytes, decode_info-hex_bytes, try_parse-delimited,
}

-- Every field is a byte.
pub record IsFrame (f : PylontechFrame) : Type 0 where
  pub ver : IsByte f.ver
  pub adr : IsByte f.adr
  pub cid1 : IsByte f.cid1
  pub cid2 : IsByte f.cid2
  pub info : AreBytes f.info

parse_at-frame :
    (buf : Bytes) (eoi : ℕ) (f : PylontechFrame)
    → 17 ≤ eoi
    → (eoi - 1) % 2 ≡ 0
    → decode_body buf (eoi - 1) ≡ some f
    → parse_at buf eoi ≡ frame (eoi + 1) f
unfolding parse_at
parse_at-frame buf eoi f long even e = rw e (ground arith)

-- A body in digits, with any two bytes in the place of LENGTH.
module _ (v a c1 c2 lh ll : ℕ) (info : Bytes) (ch cl : ℕ) (tl : Bytes) where
  abbrev head : Bytes
  head = v ∷ a ∷ c1 ∷ c2 ∷ lh ∷ ll ∷ []

  text : Bytes
  text = soi_byte ∷ (hex_bytes (head ++ (info ++ ch ∷ cl ∷ [])) ++ tl)

  -- Cut the text at any byte.
  text-cut :
      (pre post : Bytes)
      → head ++ (info ++ ch ∷ cl ∷ []) ≡ pre ++ post
      → text ≡ soi_byte ∷ (hex_bytes pre ++ (hex_bytes post ++ tl))
  unfolding text
  text-cut pre post e = rw (e, hex_bytes-append, append_assoc)

  decode_head :
      IsByte v
      → IsByte a
      → IsByte c1
      → IsByte c2
      → IsByte lh
      → IsByte ll
      → (decode_byte text 0 ≡ some v)
        × (decode_byte text 1 ≡ some a)
        × (decode_byte text 2 ≡ some c1)
        × (decode_byte text 3 ≡ some c2)
        × (decode_byte text 4 ≡ some lh)
        × (decode_byte text 5 ≡ some ll)
  unfolding text hex_bytes
  decode_head hv ha h1 h2 hh hl = (
    decode_byte-hex_bytes soi_byte [] v _ 0 refl hv,
    decode_byte-hex_bytes soi_byte (v ∷ []) a _ 1 refl ha,
    decode_byte-hex_bytes soi_byte (v ∷ a ∷ []) c1 _ 2 refl h1,
    decode_byte-hex_bytes soi_byte (v ∷ a ∷ c1 ∷ []) c2 _ 3 refl h2,
    decode_byte-hex_bytes soi_byte (v ∷ a ∷ c1 ∷ c2 ∷ []) lh _ 4 refl hh,
    decode_byte-hex_bytes soi_byte (v ∷ a ∷ c1 ∷ c2 ∷ lh ∷ []) ll _ 5 refl hl,
  )

  decode_rest :
      AreBytes info
      → IsByte ch
      → IsByte cl
      → (decode_info text 6 (length info) ≡ some info)
        × (decode_byte text (6 + length info) ≡ some ch)
        × (decode_byte text (6 + length info + 1) ≡ some cl)
  unfolding hex_bytes
  decode_rest hi h1 h2 = (
    rw (text-cut head (info ++ ch ∷ cl ∷ []) refl, hex_bytes-append, append_assoc)
        (decode_info-hex_bytes soi_byte head info _ 6 refl hi),
    rw (text-cut (head ++ info) (ch ∷ cl ∷ []) refl)
        (decode_byte-hex_bytes soi_byte (head ++ info) ch _ _ (omega arith) h1),
    rw
        (text-cut (head ++ (info ++ ch ∷ [])) (cl ∷ [])
          (ap (◌++◌ head) (sym (append_assoc info (ch ∷ []) (cl ∷ [])))))
        (decode_byte-hex_bytes soi_byte (head ++ (info ++ ch ∷ [])) cl _ _
          (omega (arith, length-append info (ch ∷ []))) h2),
  )

  checksum-text :
      chksum_over (take (12 + length info * 2) (drop 1 text))
      ≡ chksum_over (hex_bytes (head ++ info))
  checksum-text = rw (text-cut (head ++ info) (ch ∷ cl ∷ []) refl) (
      ap chksum_over (
        take-append _ (hex_bytes (head ++ info)) _
          (omega (arith, length-hex_bytes (head ++ info)))))

  decode_body-text :
      IsByte v
      → IsByte a
      → IsByte c1
      → IsByte c2
      → IsByte lh
      → IsByte ll
      → AreBytes info
      → IsByte ch
      → IsByte cl
      → chksum_over (hex_bytes (head ++ info)) ≡ ch * 256 + cl
      → (n : ℕ) → n ≡ 16 + length info * 2
      → decode_body text n ≡ some (record { ver = v; adr = a; cid1 = c1; cid2 = c2; info = info })
  unfolding decode_body
  decode_body-text hv ha h1 h2 hh hl hi hch hcl cs n e =
      let (d0, d1, d2, d3, d4, d5) = decode_head hv ha h1 h2 hh hl in
      let (i0, i1, i2) = decode_rest hi hch hcl in
      let pairs : (n - 16) / 2 ≡ length info = omega arith in
      let covered : n - 4 ≡ 12 + length info * 2 = omega arith in
      let fits : u16 (ch * 256 + cl) ≡ ch * 256 + cl = omega arith in
      rw (
        d0,
        d1,
        d2,
        d3,
        d4,
        d5,
        pairs,
        i1,
        i2,
        covered,
        checksum-text,
        cs,
        fits,
        ==_refl (ch * 256 + cl),
        i0,
      )

  -- So the parser takes the frame, whatever LENGTH says.
  parse-text :
      IsByte v
      → IsByte a
      → IsByte c1
      → IsByte c2
      → IsByte lh
      → IsByte ll
      → AreBytes info
      → IsByte ch
      → IsByte cl
      → chksum_over (hex_bytes (head ++ info)) ≡ ch * 256 + cl
      → (rest : Bytes) → tl ≡ eoi_byte ∷ rest
      → try_parse_pylontech text
        ≡ frame
            (18 + length info * 2)
            (record { ver = v; adr = a; cid1 = c1; cid2 = c2; info = info })
  parse-text hv ha h1 h2 hh hl hi hch hcl cs rest e =
      delimited
      ∙ parse_at-frame text _ _ (omega (arith, size)) (omega (arith, size))
          (decode_body-text hv ha h1 h2 hh hl hi hch hcl cs _ (omega (arith, size)))
      ∙ ap (λ n. frame n (record { ver = v; adr = a; cid1 = c1; cid2 = c2; info = info }))
          (omega (arith, size))
    where
      bytes : Bytes
      bytes = head ++ (info ++ ch ∷ cl ∷ [])

      all : AreBytes bytes
      all = (
        hv,
        (ha, (h1, (h2, (hh, (hl, All-append IsByte info (ch ∷ cl ∷ []) hi (hch, (hcl, tt))))))),
      )

      size : length (hex_bytes bytes) ≡ 16 + length info * 2
      size = omega (arith, length-hex_bytes bytes, length-append info (ch ∷ cl ∷ []))

      delimited : try_parse_pylontech text ≡ parse_at text (1 + length (hex_bytes bytes))
      delimited =
          unfold text in
          rw e (
            try_parse-delimited (hex_bytes bytes) rest
              (omega (arith, scan_until-hex_bytes bytes rest all, length-hex_bytes bytes)))

pub length-build_pylontech :
    (f : PylontechFrame) → length (build_pylontech f) ≡ 18 + length f.info * 2
length-build_pylontech f = rw (build_pylontech-eq f) (
    omega (
      arith,
      length-append (hex_bytes (frame_bytes f ++ checksum_bytes f)) (eoi_byte ∷ []),
      length-hex_bytes (frame_bytes f ++ checksum_bytes f),
      length-append (frame_bytes f) (checksum_bytes f),
    ))

build_pylontech-text :
    (f : PylontechFrame) (rest : Bytes)
    → let field = length_field (u16 (length f.info * 2)) in
      let cs = chksum_over (hex_bytes (frame_bytes f)) in
      build_pylontech f ++ rest
      ≡ text f.ver f.adr f.cid1 f.cid2
          (u8 (field / 256))
          (u8 (field % 256))
          f.info
          (u8 (cs / 256))
          (u8 (cs % 256))
          (eoi_byte ∷ rest)
unfolding text
build_pylontech-text f rest = rw (build_pylontech-eq f, append_assoc)

-- Whatever follows it in the buffer, a built frame is parsed back to the fields it was built from,
-- and exactly its own bytes are consumed: for every frame whose fields are bytes, and for INFO of any
-- length.
pub try_parse-build :
    (f : PylontechFrame) (rest : Bytes)
    → IsFrame f
    → try_parse_pylontech (build_pylontech f ++ rest) ≡ frame (length (build_pylontech f)) f
try_parse-build f rest v =
    rw (build_pylontech-text f rest, length-build_pylontech f)
      (parse-text f.ver f.adr f.cid1 f.cid2 _ _ f.info _ _ _ v.ver v.adr v.cid1 v.cid2 (omega arith)
        (omega arith) v.info (omega arith) (omega arith)
        (omega (arith, chksum_over-lt (hex_bytes (frame_bytes f)))) rest refl)

pub build_pylontech-starts :
    (f : PylontechFrame) → build_pylontech f ≡ soi_byte ∷ drop 1 (build_pylontech f)
build_pylontech-starts f = rw (build_pylontech-eq f)
