-- ===== src/Inverter/Answering.antt =====
-- Which address is answered with whose telemetry.
use native.Mathlib.Nat.{zero-div}
use bms_bridge.Base.{
  ℕ, zero, suc, ◌+◌, ◌-◌, ◌*◌, ◌/◌, ◌≤◌, ◌<◌, ap, some_inj, take, All, Bytes, same_name, u32, pos,
  div_ℤ, ◌≡◌, refl, ◌∙◌, List, [], ◌∷◌, none, some, true, false, ltb, leb, ◌||◌, length, get_elem?,
  arith,
}
use bms_bridge.Jk.Types.{JkCellInfo, JkPackInfo, JkSettings}
use bms_bridge.Battery.State.{has_value}
use bms_bridge.Pylontech.Frame.{PylontechFrame}
use bms_bridge.Inverter.{
  Battery, slot_of, mirror_of, find_named, build_address_map, reserve_pack, reserve_limits,
  capacity_mah, reserve_c_rate_tenths, module_pack, module_limits, response_to, slot_response, live,
  answer_from, answer,
}
use bms_bridge.Inverter.Addresses.{count_of, offset, build_address_map-lookup}

get_elem?-lt : {A : Type 0} (xs : List A) (i : ℕ) (a : A) → get_elem? xs i ≡ some a → i < length xs
get_elem?-lt [] i a e = cc
get_elem?-lt (x ∷ xs) zero a e = omega arith
get_elem?-lt (x ∷ xs) (suc i) a e = omega (arith, get_elem?-lt xs i a e)

taken : (adr place n : ℕ) → adr ≡ 2 + place → place < n → (ltb adr 2 || leb n (adr - 2)) ≡ false
taken adr place n e lt = ground arith

-- The look-ups, for a request to an address that is taken.
module _ (now : ℕ) (batteries : List Battery) (k m : ℕ) (b source : Battery) (f : PylontechFrame)
    (t : JkCellInfo × JkPackInfo × JkSettings) (b_eq : get_elem? batteries k ≡ some b)
    (m_lt : m < count_of b) (adr_eq : f.adr ≡ 2 + (offset batteries k + m))
    (t_eq : live now source.state ≡ some t) where
  found :
      get_elem? batteries (elim (mirror_of batteries b) [ none ↦ k | some i ↦ i ]) ≡ some source
      → answer now batteries (build_address_map batteries) f
        ≡ slot_response f b (has_value (mirror_of batteries b)) (count_of b) t.0 t.1 t.2
  unfolding answer answer_from slot_of
  found source_eq =
      let slot = build_address_map-lookup batteries k m b b_eq m_lt in
      let place : f.adr - 2 ≡ offset batteries k + m = omega (arith, adr_eq) in
      let lt = get_elem?-lt (build_address_map batteries) (offset batteries k + m) _ slot in
      rw
        (
          taken f.adr (offset batteries k + m) (length (build_address_map batteries)) adr_eq lt,
          place,
          slot,
          b_eq,
          source_eq,
          t_eq,
        )
        refl

  mirror_none : b.monitored ≡ true → mirror_of batteries b ≡ none
  unfolding mirror_of
  mirror_none e = rw e refl

  mirror_found :
      (j : ℕ)
      → b.monitored ≡ false
      → find_named b.mirror 0 batteries ≡ some j
      → mirror_of batteries b ≡ some j
  unfolding mirror_of
  mirror_found j e found_eq = rw e found_eq

response_of-plain :
    (f : PylontechFrame) (b : Battery) (n : ℕ) (c : JkCellInfo) (p : JkPackInfo) (s : JkSettings)
    → slot_response f b false n c p s ≡ response_to f c (module_pack n p) (module_limits n s)
unfolding slot_response
response_of-plain f b n c p s = refl

response_of-reserve :
    (f : PylontechFrame) (b : Battery) (n : ℕ) (c : JkCellInfo) (p : JkPackInfo) (s : JkSettings)
    → slot_response f b true n c p s
      ≡ response_to f c (module_pack n (reserve_pack b p)) (module_limits n (reserve_limits b s))
unfolding slot_response
response_of-reserve f b n c p s = refl

-- While a monitored battery is live, a request to any of its modules is answered from its own
-- telemetry, with the module's slice of pack and limits, and with the response for the CID2.
pub answer-monitored :
    (now : ℕ) (batteries : List Battery) (k m : ℕ) (b : Battery) (f : PylontechFrame)
    (cells : JkCellInfo) (pack : JkPackInfo) (lim : JkSettings)
    → get_elem? batteries k ≡ some b
    → m < count_of b
    → f.adr ≡ 2 + (offset batteries k + m)
    → b.monitored ≡ true
    → live now b.state ≡ some (cells, pack, lim)
    → answer now batteries (build_address_map batteries) f
      ≡ response_to f cells (module_pack (count_of b) pack) (module_limits (count_of b) lim)
answer-monitored now batteries k m b f cells pack lim b_eq lt adr_eq mon t_eq =
    let t : JkCellInfo × JkPackInfo × JkSettings = (cells, pack, lim) in
    let own = mirror_none now batteries k m b b f t b_eq lt adr_eq t_eq mon in
    let got = found now batteries k m b b f t b_eq lt adr_eq t_eq (rw own b_eq) in
    got ∙ rw own (response_of-plain f b (count_of b) cells pack lim)

-- The first battery of a name is at the index that no earlier one has.
find_named-first :
    (want : Bytes) (i j : ℕ) (bs : List Battery) (source : Battery)
    → get_elem? bs j ≡ some source
    → same_name source.name want ≡ true
    → All (λ (o : Battery). same_name o.name want ≡ false) (take j bs)
    → find_named want i bs ≡ some (i + j)
unfolding find_named
find_named-first want i j [] source e s a = cc
find_named-first want i zero (o ∷ os) source e s a =
    let own : same_name o.name want ≡ true = ap (λ b. same_name b.name want) (some_inj e) ∙ s in
    rw own (ap some (omega arith))
find_named-first want i (suc j) (o ∷ os) source e s a =
    rw (a.0) (find_named-first want (i + 1) j os source e s a.1 ∙ ap some (omega arith))

no_wrap : (ah soc : ℕ) → ah ≤ 42949 → soc ≤ 100 → u32 (ah * 1000 * soc) / 100 ≡ ah * 10 * soc
no_wrap ah soc a s =
    let bound : ah * soc ≤ 42949 * 100 = grind arith in
    let big : ah * 1000 * soc ≡ ah * soc * 1000 = grind arith in
    let ten : ah * 10 * soc ≡ ah * soc * 10 = grind arith in
    rw (big, ten) (below_wrap (ah * soc) bound)
  where
    below_wrap : (p : ℕ) → p ≤ 4294900 → u32 (p * 1000) / 100 ≡ p * 10
    below_wrap p h = omega arith

-- The figures of one of a reserve's modules, with no product above 32 bits.
module _ (b : Battery) (ah n : ℕ) (b_eq : b.capacity ≡ pos ah) (small : ah ≤ 42949) where
  capacity_mah-small : capacity_mah b ≡ ah * 1000
  unfolding capacity_mah
  capacity_mah-small = rw b_eq (ground arith)

  reserve_pack-figures :
      (pack : JkPackInfo)
      → pack.state_of_charge_pct ≤ 100
      → module_pack n (reserve_pack b pack) ≡ record pack {
        current_ma = pos 0;
        remaining_capacity_mah = ah * 10 * pack.state_of_charge_pct / n;
        total_capacity_mah = ah * 1000 / n;
      }
  unfolding module_pack reserve_pack
  reserve_pack-figures pack full =
      let cap = capacity_mah-small in
      let left : u32 (capacity_mah b * pack.state_of_charge_pct) / 100
          ≡ ah * 10 * pack.state_of_charge_pct =
        rw cap (no_wrap ah pack.state_of_charge_pct small full) in
      let still : div_ℤ (pos 0) n ≡ pos 0 = ap pos (zero-div n) in
      λ i. record pack {
        current_ma = still i;
        remaining_capacity_mah = left i / n;
        total_capacity_mah = cap i / n;
      }

  reserve_limits-figures :
      (lim : JkSettings)
      → module_limits n (reserve_limits b lim) ≡ record lim {
        max_charge_current_ma = ah * 500 / n;
        max_discharge_current_ma = ah * 500 / n;
      }
  unfolding module_limits reserve_limits
  reserve_limits-figures lim =
      let half : u32 (capacity_mah b * reserve_c_rate_tenths) / 10 ≡ ah * 500 =
        rw capacity_mah-small (ground arith) in
      λ i. record lim { max_charge_current_ma = half i / n; max_discharge_current_ma = half i / n }

-- While the first battery of the name that a reserve mirrors is live, with a state of charge of at
-- most 100 %, a request to any of the modules of the reserve, of at most 42949 Ah, is answered with
-- that battery's cells and temperatures, no current, and of the reserve's own capacity, that capacity
-- at the state of charge, and half a C for both current limits, one module's part.
pub answer-reserve :
    (now : ℕ) (batteries : List Battery) (k m j ah : ℕ) (b source : Battery) (f : PylontechFrame)
    (cells : JkCellInfo) (pack : JkPackInfo) (lim : JkSettings)
    → get_elem? batteries k ≡ some b
    → m < count_of b
    → f.adr ≡ 2 + (offset batteries k + m)
    → b.monitored ≡ false
    → get_elem? batteries j ≡ some source
    → same_name source.name b.mirror ≡ true
    → All (λ (o : Battery). same_name o.name b.mirror ≡ false) (take j batteries)
    → live now source.state ≡ some (cells, pack, lim)
    → b.capacity ≡ pos ah
    → ah ≤ 42949
    → pack.state_of_charge_pct ≤ 100
    → answer now batteries (build_address_map batteries) f
      ≡ response_to f cells
          (record pack {
            current_ma = pos 0;
            remaining_capacity_mah = ah * 10 * pack.state_of_charge_pct / count_of b;
            total_capacity_mah = ah * 1000 / count_of b;
          })
          (record lim {
            max_charge_current_ma = ah * 500 / count_of b;
            max_discharge_current_ma = ah * 500 / count_of b;
          })
answer-reserve now batteries k m j ah b source f cells pack lim b_eq lt adr_eq mon source_eq named
      unnamed t_eq ah_eq small full =
    let t : JkCellInfo × JkPackInfo × JkSettings = (cells, pack, lim) in
    let j_eq : find_named b.mirror 0 batteries ≡ some j =
      find_named-first b.mirror 0 j batteries source source_eq named unnamed
      ∙ ap some (omega arith) in
    let mir = mirror_found now batteries k m b source f t b_eq lt adr_eq t_eq j mon j_eq in
    let got = found now batteries k m b source f t b_eq lt adr_eq t_eq (rw mir source_eq) in
    got
    ∙ rw mir (response_of-reserve f b (count_of b) cells pack lim)
    ∙ ap (λ p. response_to f cells p (module_limits (count_of b) (reserve_limits b lim)))
        (reserve_pack-figures b ah (count_of b) ah_eq small pack full)
    ∙ ap (response_to f cells _) (reserve_limits-figures b ah (count_of b) ah_eq small lim)
