-- ===== src/Dispatcher.antt =====
-- Dispatcher of src/dispatcher.cpp: the registry of handlers and the event loop.
--
-- A handler is a name `H`; what a handler does to the dispatcher and to the world `W` is the
-- parameter `call`. Descriptors are numbers. The outcome of epoll_wait is an argument: the
-- descriptors that are ready, in their order, with whether a read() of the signals yields one, or an
-- error. epoll_ctl ADD fails exactly for a
-- descriptor that epoll watches.
pub mod Registry
pub mod Calls
pub mod Stopping
pub mod Dropping
use bms_bridge.Base.{
  ℕ, List, [], ◌∷◌, ◌++◌, Option, none, some, Bool, true, false, not, ◌==◌, ◌||◌, if◌then◌else◌,
  ◌>>=◌, ℤ,
}

-- `polled` is what epoll watches, beside the signals and the wake event; `timers` are the descriptors
-- and periods of the timers that it owns.
pub record Dispatcher (H : Type 0) : Type 0 where
  pub signal_fd : ℕ
  pub wake_fd : ℕ
  pub stopping : Bool
  pub wake_signalled : Bool
  pub handlers : List (ℕ × H)
  pub polled : List ℕ
  pub timers : List (ℕ × ℤ)

abbrev pub has_fd : ℕ → List ℕ → Bool
has_fd fd [] = false
has_fd fd (k ∷ ks) = k == fd || has_fd fd ks

unfoldable pub remove_fd : ℕ → List ℕ → List ℕ
remove_fd fd [] = []
remove_fd fd (k ∷ ks) = let later = remove_fd fd ks in if k == fd then later else k ∷ later

module _ {H : Type 0} where
  abbrev pub new_dispatcher : (signal_fd wake_fd : ℕ) → Dispatcher H
  new_dispatcher signal_fd wake_fd = record {
    signal_fd = signal_fd;
    wake_fd = wake_fd;
    stopping = false;
    wake_signalled = false;
    handlers = [];
    polled = signal_fd ∷ wake_fd ∷ [];
    timers = [];
  }

  abbrev pub handler_of : ℕ → List (ℕ × H) → Option H
  handler_of fd [] = none
  handler_of fd ((k, h) ∷ rest) =
      let later = handler_of fd rest in if k == fd then some h else later

  -- std::map::emplace: a key that is there keeps its handler.
  unfoldable pub emplace : ℕ → H → List (ℕ × H) → List (ℕ × H)
  emplace fd h handlers = elim (handler_of fd handlers) [
    | none ↦ (fd, h) ∷ handlers
    | some old ↦ handlers
  ]

  unfoldable pub erase : ℕ → List (ℕ × H) → List (ℕ × H)
  erase fd [] = []
  erase fd ((k, h) ∷ rest) = let later = erase fd rest in if k == fd then later else (k, h) ∷ later

  -- False where it throws; the handler has been put by then.
  unfoldable pub watch : ℕ → H → Dispatcher H → Bool × Dispatcher H
  unfolding emplace
  watch fd h d =
      let e = record d { handlers = emplace fd h d.handlers } in
      if has_fd fd d.polled then (false, e) else (true, record e { polled = fd ∷ d.polled })

  unfoldable pub unwatch : ℕ → Dispatcher H → Dispatcher H
  unfolding erase remove_fd
  unwatch fd d = record d { handlers = erase fd d.handlers; polled = remove_fd fd d.polled }

  -- `fd` is the descriptor of the new timer; its handler reads the timer and then calls `on_tick`.
  unfoldable pub add_timer : ℕ → ℤ → H → Dispatcher H → Bool × Dispatcher H
  unfolding watch
  add_timer fd period_ms on_tick d =
      let (watched, e) = watch fd on_tick d in
      if watched then (true, record e { timers = e.timers ++ (fd, period_ms) ∷ [] }) else (false, e)

  unfoldable pub stop : Dispatcher H → Dispatcher H
  stop d = record d { stopping = true; wake_signalled = true }

pub data Wait : Type 0 where
  ready : (fds : List ℕ) → (reads : Bool) → Wait
  interrupted : Wait
  failed : Wait

pub data Ended : Type 0 where
  stopped : Ended
  threw : Ended
  waiting : Ended

-- A loop that still waits has no more outcomes of epoll_wait.
module _ {H W : Type 0} (call : H → Dispatcher H × W → Dispatcher H × W) where
  -- The body of the inner loop.
  -- `reads` says whether a read() of the signals yields a whole signalfd_siginfo.
  unfoldable pub on_event : (reads : Bool) → ℕ → Dispatcher H × W → Dispatcher H × W
  on_event reads fd (d, w) =
      if fd == d.signal_fd
      then (if reads then (record d { stopping = true }, w) else (d, w))
      else if fd == d.wake_fd
      then (record d { wake_signalled = false }, w)
      else elim (handler_of fd d.handlers) [ none ↦ (d, w) | some h ↦ call h (d, w) ]

  -- epoll reports a descriptor once in a batch.
  unfoldable pub on_batch : (reads : Bool) → List ℕ → Dispatcher H × W → Dispatcher H × W
  unfolding on_event
  on_batch reads [] s = s
  on_batch reads (fd ∷ fds) s = on_batch reads fds (on_event reads fd s)

  unfoldable pub run : List Wait → Dispatcher H × W → Ended × List Wait × Dispatcher H × W
  unfolding on_batch
  run [] (d, w) = (if d.stopping then stopped else waiting, [], d, w)
  run (x ∷ waits) (d, w) = elim d.stopping [
    | true ↦ (stopped, x ∷ waits, d, w)
    | false ↦ elim x [
      | failed ↦ (threw, waits, d, w)
      | interrupted ↦ run waits (d, w)
      | ready fds reads ↦ run waits (on_batch reads fds (d, w))
    ]
  ]
