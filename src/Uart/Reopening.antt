-- ===== src/Uart/Reopening.antt =====
-- The port is open, or it is going to be.
use bms_bridge.Base.{
  ℕ, ℤ, ◌≡◌, ◌≢◌, refl, ◌∙◌, ap, List, [], ◌∷◌, ◌++◌, map, Option, none, some, Bool, true, false,
  append-nil, append_assoc, sym, Bytes, arith,
}
use bms_bridge.Ble.EventQueue.{BmsEvent, link_up, link_down, notify_frame}
use bms_bridge.Ble.EventQueue.Session.{session, session-snoc}
use bms_bridge.Timer.{IsDelay}
use bms_bridge.Uart.{
  Tty, UartTransport, new_transport, serial_open, try_open, close_fd, start, stop, on_readable,
  on_reopen_tick,
}

-- From start() on, until stop(). A descriptor is read only while it is watched.
pub data ReachableUart (baud : ℕ) (reconnect_ms : ℤ) : UartTransport → Type 0 where
  starts : (t : Tty) → ReachableUart baud reconnect_ms (start t (new_transport baud reconnect_ms))
  reads :
      (chunks : List Bytes) (fails : Bool) {u : UartTransport}
      → u.fd ≢ none
      → ReachableUart baud reconnect_ms u
      → ReachableUart baud reconnect_ms (on_readable chunks fails u)
  ticks :
      (t : Tty) {u : UartTransport}
      → ReachableUart baud reconnect_ms u
      → ReachableUart baud reconnect_ms (on_reopen_tick t u)

abbrev pub only : Option ℕ → List ℕ
only none = []
only (some fd) = fd ∷ []

abbrev pub is_open : Option ℕ → Bool
is_open none = false
is_open (some fd) = true

pub record Live (u : UartTransport) : Type 0 where
  pub reopens : IsDelay u.reconnect_ms → u.fd ≡ none → u.timer ≢ none
  pub waits : ¬ IsDelay u.reconnect_ms → u.timer ≡ none
  pub running : u.started ≡ true
  pub one_open : u.open_fds ≡ only u.fd
  pub one_watched : u.watched ≡ only u.fd
  pub tells : session (some false) u.told ≡ some (is_open u.fd)

session-frames :
    (up : Option Bool) (evs : List BmsEvent) (chunks : List Bytes) {b : Bool}
    → session up evs ≡ some b
    → session up (evs ++ map notify_frame chunks) ≡ some b
session-frames up evs [] e = ap (session up) (append-nil evs) ∙ e
session-frames up evs (c ∷ cs) e =
    ap (session up) (sym (append_assoc evs (notify_frame c ∷ []) (map notify_frame cs)))
    ∙ session-frames up (evs ++ notify_frame c ∷ []) cs
        (session-snoc up evs (notify_frame c) ∙ rw e refl)

try_open-Live :
    (t : Tty) (u : UartTransport)
    → u.started ≡ true
    → u.open_fds ≡ []
    → u.watched ≡ []
    → session (some false) u.told ≡ some false
    → (¬ IsDelay u.reconnect_ms → u.timer ≡ none)
    → Live (try_open t u)
unfolding try_open serial_open
try_open-Live t u r o w s n = ground (arith, session-snoc (some false) u.told link_up)

on_readable-Live :
    (chunks : List Bytes) (fails : Bool) (u : UartTransport)
    → u.fd ≢ none
    → Live u
    → Live (on_readable chunks fails u)
unfolding on_readable close_fd
on_readable-Live chunks fails u n v = ground (
  arith,
  session-frames (some false) u.told chunks v.tells,
  session-snoc (some false) (u.told ++ map notify_frame chunks) link_down,
)

on_reopen_tick-Live : (t : Tty) (u : UartTransport) → Live u → Live (on_reopen_tick t u)
unfolding on_reopen_tick
on_reopen_tick-Live t u v = go u.fd v
  where
    go :
        (fd : Option ℕ)
        → Live (record u { fd = fd })
        → Live (on_reopen_tick t (record u { fd = fd }))
    go none w =
        try_open-Live t (record u { fd = none; timer = none }) w.running w.one_open w.one_watched
          w.tells (λ n. refl)
    go (some fd) w = record {
      reopens = λ d e. cc;
      waits = λ n. refl;
      running = w.running;
      one_open = w.one_open;
      one_watched = w.one_watched;
      tells = w.tells;
    }

start-Live :
    (t : Tty) (baud : ℕ) (reconnect_ms : ℤ) → Live (start t (new_transport baud reconnect_ms))
unfolding start new_transport session
start-Live t baud reconnect_ms =
    try_open-Live t (record (new_transport baud reconnect_ms) { started = true }) refl refl refl
      refl (λ n. refl)

pub reachable-Live :
    {baud : ℕ} {reconnect_ms : ℤ} (u : UartTransport) → ReachableUart baud reconnect_ms u → Live u
reachable-Live {baud} {reconnect_ms} _ (starts t) = start-Live t baud reconnect_ms
reachable-Live _ (reads chunks fails {u} n v) =
    on_readable-Live chunks fails u n (reachable-Live u v)
reachable-Live _ (ticks t {u} v) = on_reopen_tick-Live t u (reachable-Live u v)

-- After stop(), from any such state, nothing is open and nothing watched; the sink is not told.
pub stop-closed :
    {baud : ℕ} {reconnect_ms : ℤ} (u : UartTransport)
    → ReachableUart baud reconnect_ms u
    → let v = stop u in (v.fd ≡ none) × (v.open_fds ≡ []) × (v.watched ≡ []) × (v.told ≡ u.told)
unfolding stop close_fd
stop-closed u r = let v = reachable-Live u r in ground (arith, v)
