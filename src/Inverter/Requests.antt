-- ===== src/Inverter/Requests.antt =====
-- What the inverter hears for the bytes it sends.
use bms_bridge.Base.{
  ℕ, ◌+◌, ◌-◌, ◌≤◌, ◌≡◌, inl, inr, refl, sym, ◌∙◌, subst, List, [], ◌∷◌, ◌++◌, append_assoc,
  append-nil, Option, none, some, some_inj, bind-eq-some, Bool-cases, Bool, true, false, ltb, leb,
  ◌||◌, if◌then◌else◌, length, length-append, get_elem?, max, Bytes, arith,
}
use bms_bridge.Jk.Types.{JkCellInfo, JkPackInfo, JkSettings}
use bms_bridge.Battery.State.{SharedState, is_fresh, snapshot, has_value}
use bms_bridge.Pylontech.Frame.{PylontechFrame}
use bms_bridge.Pylontech.Stream.{
  receive-on_line, receive-length, Settled, Arrivals, on_line, AreArrivals, handle_all,
}
use bms_bridge.Inverter.{
  Battery, Slot, Inverter, rx_buf_limit, live, slot_response, answer_from, answer, handle_request,
  process_buffer, on_bytes,
}

-- The responses to a sequence of requests: one for each that is answered.
abbrev pub answers : (now : ℕ) → List Battery → List Slot → Arrivals → List Bytes
answers now batteries slots [] = []
answers now batteries slots ((noise, f) ∷ later) = elim (answer now batteries slots f) [
  | none ↦ answers now batteries slots later
  | some resp ↦ resp ∷ answers now batteries slots later
]

not-over : (n : ℕ) → ltb 4096 n ≡ false → n ≤ 4096
not-over n e = ground arith

handle_all-answers :
    (now : ℕ) (batteries : List Battery) (slots : List Slot) (sent : List Bytes)
    (arrivals : Arrivals)
    → handle_all (handle_request now batteries slots) sent arrivals
      ≡ sent ++ answers now batteries slots arrivals
unfolding handle_request
handle_all-answers now batteries slots sent [] = sym (append-nil sent)
handle_all-answers now batteries slots sent ((noise, f) ∷ later) =
    handle_all-answers now batteries slots (handle_request now batteries slots sent f) later
    ∙ step (answer now batteries slots f)
  where
    step :
        (o : Option Bytes)
        → (elim o [ none ↦ sent | some resp ↦ sent ++ resp ∷ [] ])
            ++ answers now batteries slots later
          ≡ sent ++ (elim o [
            | none ↦ answers now batteries slots later
            | some resp ↦ resp ∷ answers now batteries slots later
          ])
    step none = refl
    step (some resp) = append_assoc sent (resp ∷ []) (answers now batteries slots later)

none_kept : (b : Bool) (buf : Bytes) → buf ≡ [] → (if b then [] else buf) ≡ []
none_kept true buf e = refl
none_kept false buf e = e

kept-length :
    (buf bytes : Bytes)
    → length ((if ltb 4096 (length buf + length bytes) then [] else buf) ++ bytes)
      ≤ max 4096 (length bytes)
kept-length buf bytes = elim (Bool-cases (ltb 4096 (length buf + length bytes))) [
  | inl e ↦ rw e (omega arith)
  | inr e ↦ rw e (omega (arith, length-append buf bytes, not-over (length buf + length bytes) e))
]

-- Requests that arrive on an empty buffer, with noise between them and an unfinished one at the end,
-- are answered one by one in the order of arrival, and the unfinished one is kept.
pub on_bytes-on_line :
    (now : ℕ) (inv : Inverter) (arrivals : Arrivals) (tl : Bytes)
    → inv.rx_buf ≡ []
    → AreArrivals arrivals
    → Settled tl
    → on_bytes now inv (on_line arrivals tl)
      ≡ (record inv { rx_buf = tl }, answers now inv.batteries inv.slots arrivals)
unfolding on_bytes process_buffer
on_bytes-on_line now inv arrivals tl e v h =
    let kept =
      none_kept (ltb 4096 (length inv.rx_buf + length (on_line arrivals tl))) inv.rx_buf e in
    let got = receive-on_line (handle_request now inv.batteries inv.slots) [] arrivals tl v h in
    let all = handle_all-answers now inv.batteries inv.slots [] arrivals in rw (kept, got, all) refl

-- Between calls the buffer holds at most 4096 bytes, or as many as the last chunk had.
pub on_bytes-length :
    (now : ℕ) (inv : Inverter) (bytes : Bytes)
    → length (on_bytes now inv bytes).0.rx_buf ≤ max 4096 (length bytes)
unfolding on_bytes process_buffer
on_bytes-length now inv bytes =
    let kept = if ltb rx_buf_limit (length inv.rx_buf + length bytes) then [] else inv.rx_buf in
    omega (
      arith,
      receive-length (handle_request now inv.batteries inv.slots) [] (kept ++ bytes),
      kept-length inv.rx_buf bytes,
    )

-- What a battery shares while it is live.
pub record Live (now : ℕ) (state : SharedState) : Type 0 where
  pub cells : JkCellInfo
  pub pack : JkPackInfo
  pub settings : JkSettings
  pub connected : state.connected ≡ true
  pub recent : now - state.updated_at ≤ 5000
  pub cells_eq : state.cells ≡ some cells
  pub pack_eq : state.pack ≡ some pack
  pub settings_eq : state.settings ≡ some settings

-- Where a response comes from.
pub record Answered (now : ℕ) (batteries : List Battery) (slots : List Slot) (f : PylontechFrame)
    (resp : Bytes) : Type 0 where
  pub slot : Slot
  pub owner : Battery
  pub source : Battery
  pub slot_eq : get_elem? slots (f.adr - 2) ≡ some slot
  pub owner_eq : get_elem? batteries slot.battery ≡ some owner
  pub source_eq :
      get_elem? batteries (elim slot.mirror [ none ↦ slot.battery | some i ↦ i ]) ≡ some source
  pub source_live : Live now source.state
  pub resp_eq :
      slot_response f owner
        (has_value slot.mirror)
        slot.module_count
        source_live.cells
        source_live.pack
        source_live.settings
      ≡ some resp
  pub ours : 2 ≤ f.adr

if-some :
    {A : Type 0} (b : Bool) (a t : A) → (if b then some a else none) ≡ some t → (b ≡ true) × (a ≡ t)
if-some true a t e = (refl, some_inj e)
if-some false a t e = cc

guarded :
    {A : Type 0} (b : Bool) (o : Option A) (a : A)
    → (if b then none else o) ≡ some a
    → (b ≡ false) × (o ≡ some a)
guarded true o a e = cc
guarded false o a e = (refl, e)

ours-address : (adr : ℕ) (b : Bool) → (ltb adr 2 || b) ≡ false → 2 ≤ adr
ours-address adr b e = ground arith

is_fresh-true :
    (now : ℕ) (state : SharedState)
    → is_fresh now 5000 state ≡ true
    → (state.connected ≡ true) × (now - state.updated_at ≤ 5000)
unfolding is_fresh
is_fresh-true now state e = ground arith

live-Live :
    (now : ℕ) (state : SharedState) (t : JkCellInfo × JkPackInfo × JkSettings)
    → live now state ≡ some t
    → (l : Live now state) × ((l.cells, l.pack, l.settings) ≡ t)
unfolding live snapshot is_fresh
live-Live now state t e =
    let (cells, cells_eq, e1) = bind-eq-some state.cells _ e in
    let (pack, pack_eq, e2) = bind-eq-some state.pack _ e1 in
    let (settings, settings_eq, e3) = bind-eq-some state.settings _ e2 in
    let (fresh, t_eq) = if-some (is_fresh now 5000 state) (cells, pack, settings) t e3 in
    let (connected, recent) = is_fresh-true now state fresh in
    (
      record {
        cells = cells;
        pack = pack;
        settings = settings;
        connected = connected;
        recent = recent;
        cells_eq = cells_eq;
        pack_eq = pack_eq;
        settings_eq = settings_eq;
      },
      t_eq,
    )

-- A response is sent only to an address that is taken, and only from telemetry that is live: of the
-- slot's own battery, or of the one it mirrors, connected, with cells, pack and settings known and
-- an update no older than 5000 ms. It is then the response for exactly that telemetry.
pub answer-Answered :
    (now : ℕ) (batteries : List Battery) (slots : List Slot) (f : PylontechFrame) (resp : Bytes)
    → answer now batteries slots f ≡ some resp
    → Answered now batteries slots f resp
unfolding answer answer_from
answer-Answered now batteries slots f resp e =
    let (ours, e0) = guarded (ltb f.adr 2 || leb (length slots) (f.adr - 2)) _ resp e in
    let (slot, slot_eq, e1) = bind-eq-some (get_elem? slots (f.adr - 2)) _ e0 in
    let (owner, owner_eq, e2) = bind-eq-some (get_elem? batteries slot.battery) _ e1 in
    let (source, source_eq, e3) =
      bind-eq-some (get_elem? batteries (elim slot.mirror [ none ↦ slot.battery | some i ↦ i ])) _
        e2 in
    let (t, live_eq, resp_eq) = bind-eq-some (live now source.state) _ e3 in
    let (l, t_eq) = live-Live now source.state t live_eq in
    record {
      slot = slot;
      owner = owner;
      source = source;
      slot_eq = slot_eq;
      owner_eq = owner_eq;
      source_eq = source_eq;
      source_live = l;
      resp_eq =
          subst
            (λ (t : JkCellInfo × JkPackInfo × JkSettings).
              slot_response f owner (has_value slot.mirror) slot.module_count t.0 t.1 t.2
              ≡ some resp)
            (sym t_eq) resp_eq;
      ours = ours-address f.adr (leb (length slots) (f.adr - 2)) ours;
    }
