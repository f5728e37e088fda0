-- ===== src/Pylontech/Frame/Bounds.antt =====
-- How far try_parse_pylontech gets on any buffer: what callers erase is never empty and never more
-- than they hold, and junk in front of a frame is dropped exactly.
use bms_bridge.Base.{
  ℕ, ◌+◌, ◌≤◌, ◌<◌, ◌≡◌, [], ◌∷◌, ◌++◌, arith, length, length-append, length-drop, drop, ◌↔◌, Bytes,
}
use bms_bridge.Pylontech.Frame.{
  Outcome, more, discard, frame, scan_until, parse_at, try_parse_pylontech, eoi_byte, soi_byte,
  max_frame_len,
}

pub scan_until-le : (b : ℕ) (xs : Bytes) → scan_until b xs ≤ length xs
unfolding scan_until
scan_until-le b [] = omega arith
scan_until-le b (x ∷ xs) = ground (arith, scan_until-le b xs)

-- The outcome asks for at least one byte and at most the whole buffer, or for more bytes.
abbrev pub InBuffer : ℕ → Outcome → Type 0
InBuffer len more = Unit {0}
InBuffer len (discard n) = (1 ≤ n) × (n ≤ len)
InBuffer len (frame n f) = (1 ≤ n) × (n ≤ len)

parse_at-InBuffer :
    (buf : Bytes) (eoi : ℕ) → eoi < length buf → InBuffer (length buf) (parse_at buf eoi)
unfolding parse_at
parse_at-InBuffer buf eoi h = ground arith

-- On every buffer the parser consumes or drops at least one byte and never more than the buffer
-- holds, unless it asks for more; so a caller's loop makes progress and never erases past the end.
pub try_parse-InBuffer : (buf : Bytes) → InBuffer (length buf) (try_parse_pylontech buf)
unfolding try_parse_pylontech
try_parse-InBuffer buf = ground (
  arith,
  scan_until-le soi_byte buf,
  scan_until-le eoi_byte (drop 1 buf),
  length-drop 1 buf,
  parse_at-InBuffer buf (1 + scan_until eoi_byte (drop 1 buf)),
)

abbrev pub IsUnfinished : ℕ → Bytes → Type 0
IsUnfinished b bs =
    (b ≡ soi_byte) × (scan_until eoi_byte bs ≡ length bs) × (length (b ∷ bs) ≤ max_frame_len)

-- On a nonempty buffer it asks for more exactly when the buffer starts with SOI, has no EOI behind
-- it and is no longer than the cap.
pub try_parse-more_iff :
    (b : ℕ) (bs : Bytes) → (try_parse_pylontech (b ∷ bs) ≡ more) ↔ IsUnfinished b bs
unfolding try_parse_pylontech scan_until parse_at
try_parse-more_iff b bs = ground arith

pub scan_until-append :
    (b : ℕ) (junk rest : Bytes)
    → scan_until b junk ≡ length junk
    → scan_until b (junk ++ b ∷ rest) ≡ length junk
unfolding scan_until
scan_until-append b [] rest h = ground arith
scan_until-append b (x ∷ xs) rest h = ground (arith, scan_until-append b xs rest)

-- Bytes in front of the next SOI are dropped together, and nothing else is.
pub try_parse-junk :
    (b : ℕ) (junk rest : Bytes)
    → scan_until soi_byte (b ∷ junk) ≡ length (b ∷ junk)
    → try_parse_pylontech ((b ∷ junk) ++ soi_byte ∷ rest) ≡ discard (length (b ∷ junk))
unfolding try_parse_pylontech
try_parse-junk b junk rest h =
    rw (scan_until-append soi_byte (b ∷ junk) rest h)
      (ground (arith, length-append (b ∷ junk) (soi_byte ∷ rest)))
