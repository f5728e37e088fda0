-- ===== src/Uart.antt =====
-- UartTransport of src/uart_transport.cpp, and the opening of a serial device.
--
-- The kernel is a parameter: the outcomes of the calls are arguments. What the sink is told is
-- listed in the words of the event channel, as link_up for on_connected(), link_down for
-- on_disconnected() and a frame for on_bytes(). The timer is its delay while it is armed.
pub mod Sending
pub mod Reopening
use bms_bridge.Base.{
  ℕ, List, [], ◌∷◌, ◌++◌, map, Option, none, some, Bool, true, false, ◌==◌, ltb, take, drop,
  if◌then◌else◌, Bytes, ℤ,
}
use bms_bridge.Timer.{rearm}
use bms_bridge.Ble.EventQueue.{BmsEvent, link_up, link_down, notify_frame}

-- The constant that termios has for a rate stands for it; B0 is none.
unfoldable pub baud_to_speed : ℕ → Option ℕ
baud_to_speed baud =
    if baud == 1200
    then some 1200
    else if baud == 2400
    then some 2400
    else if baud == 4800
    then some 4800
    else if baud == 9600
    then some 9600
    else if baud == 19200
    then some 19200
    else if baud == 38400
    then some 38400
    else if baud == 57600
    then some 57600
    else if baud == 115200
    then some 115200
    else if baud == 230400
    then some 230400
    else if baud == 460800
    then some 460800
    else if baud == 921600
    then some 921600
    else none

-- The outcomes of open(), tcgetattr() and tcsetattr().
pub record Tty : Type 0 where
  pub opens : Option ℕ
  pub gets_attributes : Bool
  pub sets_attributes : Bool

-- serial_open(): the descriptor that it returns, and the descriptors open behind it.
unfoldable pub serial_open : ℕ → Tty → List ℕ → Option ℕ × List ℕ
serial_open baud t fds = elim t.opens [
  | none ↦ (none, fds)
  | some fd ↦ elim (baud_to_speed baud) [
    | none ↦ (none, fds)
    | some speed ↦
        if t.gets_attributes
        then (if t.sets_attributes then (some fd, fd ∷ fds) else (none, fds))
        else (none, fds)
  ]
]

-- What write() returns: a count, EAGAIN or EINTR, or another error.
pub data Write : Type 0 where
  wrote : ℕ → Write
  try_again : Write
  write_fails : Write

-- send()'s loop over the bytes that are left: what is written, and the result, which is none while
-- the loop runs on behind the given outcomes.
unfoldable pub send_loop : List Write → Bytes → Bytes × Option Bool
send_loop ws [] = ([], some true)
send_loop [] (b ∷ bs) = ([], none)
send_loop (wrote n ∷ ws) (b ∷ bs) =
    let (later, result) = send_loop ws (drop n (b ∷ bs)) in
    if ltb 0 n then (take n (b ∷ bs) ++ later, result) else ([], some false)
send_loop (try_again ∷ ws) (b ∷ bs) = send_loop ws (b ∷ bs)
send_loop (write_fails ∷ ws) (b ∷ bs) = ([], some false)

-- `started` says that `dispatcher_` is set; `open_fds` are the descriptors of the process that this
-- transport has opened and not closed.
pub record UartTransport : Type 0 where
  pub baud : ℕ
  pub reconnect_ms : ℤ
  pub fd : Option ℕ
  pub started : Bool
  pub watched : List ℕ
  pub timer : Option ℕ
  pub open_fds : List ℕ
  pub told : List BmsEvent

unfoldable pub new_transport : ℕ → ℤ → UartTransport
new_transport baud reconnect_ms = record {
  baud = baud;
  reconnect_ms = reconnect_ms;
  fd = none;
  started = false;
  watched = [];
  timer = none;
  open_fds = [];
  told = [];
}

unfoldable pub send : List Write → Bytes → UartTransport → Bytes × Option Bool
unfolding send_loop
send ws payload u = elim u.fd [ none ↦ ([], some false) | some fd ↦ send_loop ws payload ]

abbrev pub without : ℕ → List ℕ → List ℕ
without fd [] = []
without fd (f ∷ fs) = let rest = without fd fs in if f == fd then rest else f ∷ rest

unfoldable pub try_open : Tty → UartTransport → UartTransport
unfolding serial_open
try_open t u =
    let (opened, fds) = serial_open u.baud t u.open_fds in
    elim opened [
      | none ↦ record u { fd = none; open_fds = fds; timer = rearm u.reconnect_ms u.timer }
      | some fd ↦ record u {
        fd = some fd;
        open_fds = fds;
        watched = fd ∷ u.watched;
        told = u.told ++ link_up ∷ [];
      }
    ]

unfoldable pub close_fd : UartTransport → UartTransport
close_fd u = elim u.fd [
  | none ↦ u
  | some fd ↦ record u {
    fd = none;
    watched = if u.started then without fd u.watched else u.watched;
    open_fds = without fd u.open_fds;
  }
]

unfoldable pub start : Tty → UartTransport → UartTransport
unfolding try_open
start t u = try_open t (record u { started = true })

unfoldable pub stop : UartTransport → UartTransport
unfolding close_fd
stop u = record (close_fd u) { started = false }

-- on_readable(): the chunks that read() yields, and whether it ends with an error other than EAGAIN.
unfoldable pub on_readable : List Bytes → Bool → UartTransport → UartTransport
unfolding close_fd
on_readable chunks fails u =
    let v = record u { told = u.told ++ map notify_frame chunks } in
    if fails
    then record (close_fd v) {
      told = v.told ++ link_down ∷ [];
      timer = rearm u.reconnect_ms u.timer;
    }
    else v

-- The handler of the reopen timer.
unfoldable pub on_reopen_tick : Tty → UartTransport → UartTransport
unfolding try_open
on_reopen_tick t u =
    let v = record u { timer = none } in elim u.fd [ none ↦ try_open t v | some fd ↦ v ]
