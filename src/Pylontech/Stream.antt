-- ===== src/Pylontech/Stream.antt =====
-- The receive loop that Inverter::process_buffer (src/inverter.cpp) and
-- PylontechMasterProtocol::feed (src/pylontech_master.cpp) share: parse at the head of the buffer,
-- erase what the parser asks for, handle a frame, and go on until it asks for more.
--
-- Each round erases at least one byte, so the length of the buffer is fuel enough.
use bms_bridge.Base.{
  ℕ, zero, suc, ◌≤◌, ◌≡◌, refl, subst, sym, ap, ◌∙◌, ◌⊎◌, inl, inr, List, [], ◌∷◌, ◌++◌, arith,
  length, length-drop, drop, drop-append, Bytes,
}
use bms_bridge.Pylontech.Frame.{
  PylontechFrame, Outcome, more, discard, frame, scan_until, try_parse_pylontech, build_pylontech,
  soi_byte,
}
use bms_bridge.Pylontech.Frame.Bounds.{InBuffer, try_parse-InBuffer, try_parse-junk}
use bms_bridge.Pylontech.Frame.RoundTrip.{IsFrame, try_parse-build, build_pylontech-starts}

-- What the parser leaves: nothing, or the start of a frame that is not complete.
abbrev pub Settled : Bytes → Type 0
Settled buf = (buf ≡ []) ⊎ (try_parse_pylontech buf ≡ more)

-- `handle` is the loop's body behind `erase(begin, begin + n)`, with its `continue`s. (The source
-- cuts the erased count at the size of the buffer; `drop` does so too.)
module _ {S : Type 0} (handle : S → PylontechFrame → S) where
  unfoldable pub drain : ℕ → S → Bytes → S × Bytes
  drain zero s buf = (s, buf)
  drain (suc fuel) s [] = (s, [])
  drain (suc fuel) s (b ∷ bs) = elim (try_parse_pylontech (b ∷ bs)) [
    | more ↦ (s, b ∷ bs)
    | discard n ↦ drain fuel s (drop n (b ∷ bs))
    | frame n f ↦ drain fuel (handle s f) (drop n (b ∷ bs))
  ]

  -- The state behind the loop, and what stays in the buffer.
  unfoldable pub receive : S → Bytes → S × Bytes
  receive s buf = drain (length buf) s buf

  drain_fuel :
      (m n : ℕ) (s : S) (buf : Bytes)
      → length buf ≤ m
      → length buf ≤ n
      → drain m s buf ≡ drain n s buf
  unfolding drain
  drain_fuel zero zero s buf h k = refl
  drain_fuel zero (suc n) s [] h k = refl
  drain_fuel zero (suc n) s (b ∷ bs) h k = absurd (omega arith)
  drain_fuel (suc m) zero s [] h k = refl
  drain_fuel (suc m) zero s (b ∷ bs) h k = absurd (omega arith)
  drain_fuel (suc m) (suc n) s [] h k = refl
  drain_fuel (suc m) (suc n) s (b ∷ bs) h k =
      go (try_parse_pylontech (b ∷ bs)) (try_parse-InBuffer (b ∷ bs)) (λ s' j p.
        drain_fuel m n s' (drop j (b ∷ bs)) (omega (arith, length-drop j (b ∷ bs)))
          (omega (arith, length-drop j (b ∷ bs))))
    where
      go :
          (o : Outcome)
          → InBuffer (length (b ∷ bs)) o
          → ((s' : S) (j : ℕ) → 1 ≤ j → drain m s' (drop j (b ∷ bs)) ≡ drain n s' (drop j (b ∷ bs)))
          → ◌≡◌ {A = S × Bytes}
              (elim o [
                | more ↦ (s, b ∷ bs)
                | discard j ↦ drain m s (drop j (b ∷ bs))
                | frame j f ↦ drain m (handle s f) (drop j (b ∷ bs))
              ])
              (elim o [
                | more ↦ (s, b ∷ bs)
                | discard j ↦ drain n s (drop j (b ∷ bs))
                | frame j f ↦ drain n (handle s f) (drop j (b ∷ bs))
              ])
      go more i ih = refl
      go (discard j) i ih = ih s j i.0
      go (frame j f) i ih = ih (handle s f) j i.0

  drain-Settled :
      (fuel : ℕ) (s : S) (buf : Bytes) → length buf ≤ fuel → Settled (drain fuel s buf).1
  unfolding drain
  drain-Settled zero s [] h = inl refl
  drain-Settled zero s (b ∷ bs) h = absurd (omega arith)
  drain-Settled (suc fuel) s [] h = inl refl
  drain-Settled (suc fuel) s (b ∷ bs) h =
      go (try_parse_pylontech (b ∷ bs)) refl (try_parse-InBuffer (b ∷ bs))
        (λ s' j p. drain-Settled fuel s' (drop j (b ∷ bs)) (omega (arith, length-drop j (b ∷ bs))))
    where
      go :
          (o : Outcome)
          → try_parse_pylontech (b ∷ bs) ≡ o
          → InBuffer (length (b ∷ bs)) o
          → ((s' : S) (j : ℕ) → 1 ≤ j → Settled (drain fuel s' (drop j (b ∷ bs))).1)
          → let out : S × Bytes = elim o [
            | more ↦ (s, b ∷ bs)
            | discard j ↦ drain fuel s (drop j (b ∷ bs))
            | frame j f ↦ drain fuel (handle s f) (drop j (b ∷ bs))
          ] in
            Settled out.1
      go more e i ih = inr e
      go (discard j) e i ih = ih s j i.0
      go (frame j f) e i ih = ih (handle s f) j i.0

  -- The loop ends by its own test on every buffer: it leaves nothing, or bytes for which the parser
  -- asks for more.
  pub receive-Settled : (s : S) (buf : Bytes) → Settled (receive s buf).1
  unfolding receive
  receive-Settled s buf = drain-Settled (length buf) s buf (omega arith)

  drain-length : (fuel : ℕ) (s : S) (buf : Bytes) → length (drain fuel s buf).1 ≤ length buf
  unfolding drain
  drain-length zero s buf = omega arith
  drain-length (suc fuel) s [] = omega arith
  drain-length (suc fuel) s (b ∷ bs) =
      go (try_parse_pylontech (b ∷ bs)) (λ s' n. drain-length fuel s' (drop n (b ∷ bs)))
    where
      go :
          (o : Outcome)
          → ((s' : S) (n : ℕ)
              → length (drain fuel s' (drop n (b ∷ bs))).1 ≤ length (drop n (b ∷ bs)))
          → length
              (elim o as (λ o. S × Bytes) [
                | more ↦ (s, b ∷ bs)
                | discard n ↦ drain fuel s (drop n (b ∷ bs))
                | frame n f ↦ drain fuel (handle s f) (drop n (b ∷ bs))
              ]).1
            ≤ length (b ∷ bs)
      go more ih = omega arith
      go (discard n) ih = omega (arith, ih s n, length-drop n (b ∷ bs))
      go (frame n f) ih = omega (arith, ih (handle s f) n, length-drop n (b ∷ bs))

  -- The loop adds nothing to the buffer.
  pub receive-length : (s : S) (buf : Bytes) → length (receive s buf).1 ≤ length buf
  unfolding receive
  receive-length s buf = drain-length (length buf) s buf

  -- One round of the loop, for any nonempty buffer.
  receive-discard :
      (s : S) (b : ℕ) (bs : Bytes) (n : ℕ)
      → try_parse_pylontech (b ∷ bs) ≡ discard n
      → receive s (b ∷ bs) ≡ receive s (drop n (b ∷ bs))
  unfolding receive drain
  receive-discard s b bs n e =
      let i = subst (InBuffer (length (b ∷ bs))) e (try_parse-InBuffer (b ∷ bs)) in
      rw (e, drain)
        (drain_fuel (length bs) (length (drop n (b ∷ bs))) s (drop n (b ∷ bs))
          (omega (arith, length-drop n (b ∷ bs), i.0)) (omega arith))

  receive-frame :
      (s : S) (b : ℕ) (bs : Bytes) (n : ℕ) (f : PylontechFrame)
      → try_parse_pylontech (b ∷ bs) ≡ frame n f
      → receive s (b ∷ bs) ≡ receive (handle s f) (drop n (b ∷ bs))
  unfolding receive drain
  receive-frame s b bs n f e =
      let i = subst (InBuffer (length (b ∷ bs))) e (try_parse-InBuffer (b ∷ bs)) in
      rw (e, drain)
        (drain_fuel (length bs) (length (drop n (b ∷ bs))) (handle s f) (drop n (b ∷ bs))
          (omega (arith, length-drop n (b ∷ bs), i.0)) (omega arith))

  receive-more : (s : S) (buf : Bytes) → Settled buf → receive s buf ≡ (s, buf)
  unfolding receive drain
  receive-more s [] h = refl
  receive-more s (b ∷ bs) (inl e) = cc
  receive-more s (b ∷ bs) (inr e) = rw (e, drain)

  -- A built frame at the head of the buffer is handled.
  receive-build :
      (s : S) (f : PylontechFrame) (rest : Bytes)
      → IsFrame f
      → receive s (build_pylontech f ++ rest) ≡ receive (handle s f) rest
  receive-build s f rest v =
      let whole : build_pylontech f ++ rest ≡ soi_byte ∷ (drop 1 (build_pylontech f) ++ rest) =
        ap (λ xs. xs ++ rest) (build_pylontech-starts f) in
      let parsed = try_parse-build f rest v in
      let erased = drop-append (length (build_pylontech f)) (build_pylontech f) rest refl in
      ap (receive s) whole
      ∙ receive-frame s soi_byte _ (length (build_pylontech f)) f
          (subst (λ xs. try_parse_pylontech xs ≡ frame (length (build_pylontech f)) f) whole parsed)
      ∙ ap (receive (handle s f)) (ap (drop (length (build_pylontech f))) (sym whole) ∙ erased)

  -- So is a built frame behind noise that holds no SOI byte.
  receive-noise :
      (s : S) (noise : Bytes) (f : PylontechFrame) (rest : Bytes)
      → IsFrame f
      → scan_until soi_byte noise ≡ length noise
      → receive s (noise ++ (build_pylontech f ++ rest)) ≡ receive (handle s f) rest
  receive-noise s [] f rest v h = receive-build s f rest v
  receive-noise s (b ∷ junk) f rest v h =
      let whole : (b ∷ junk) ++ (build_pylontech f ++ rest)
          ≡ (b ∷ junk) ++ soi_byte ∷ (drop 1 (build_pylontech f) ++ rest) =
        ap (λ xs. (b ∷ junk) ++ (xs ++ rest)) (build_pylontech-starts f) in
      let parsed = try_parse-junk b junk (drop 1 (build_pylontech f) ++ rest) h in
      receive-discard s b _ _
        (subst (λ xs. try_parse_pylontech xs ≡ discard (length (b ∷ junk))) (sym whole) parsed)
      ∙ ap (receive s) (drop-append (length (b ∷ junk)) (b ∷ junk) _ refl)
      ∙ receive-build s f rest v

-- What arrives on the line: frames, each behind some noise.
abbrev pub Arrivals : Type 0
Arrivals = List (Bytes × PylontechFrame)

abbrev pub on_line : Arrivals → Bytes → Bytes
on_line [] tl = tl
on_line ((noise, f) ∷ later) tl = noise ++ (build_pylontech f ++ on_line later tl)

abbrev pub AreArrivals : Arrivals → Type 0
AreArrivals [] = Unit {0}
AreArrivals ((noise, f) ∷ later) =
    (scan_until soi_byte noise ≡ length noise) × IsFrame f × AreArrivals later

abbrev pub handle_all {ℓ} : {S : Type ℓ} → (S → PylontechFrame → S) → S → Arrivals → S
handle_all handle s [] = s
handle_all handle s ((noise, f) ∷ later) = handle_all handle (handle s f) later

-- Of any sequence of built frames, each behind noise with no SOI byte in it, and an unfinished frame
-- at the end, the loop handles every frame once and in order, and keeps the unfinished one.
pub receive-on_line :
    {S : Type 0} (handle : S → PylontechFrame → S) (s : S) (arrivals : Arrivals) (tl : Bytes)
    → AreArrivals arrivals
    → Settled tl
    → receive handle s (on_line arrivals tl) ≡ (handle_all handle s arrivals, tl)
receive-on_line handle s [] tl v h = receive-more handle s tl h
receive-on_line handle s ((noise, f) ∷ later) tl v h =
    receive-noise handle s noise f (on_line later tl) v.1 v.0
    ∙ receive-on_line handle (handle s f) later tl v.2 h
