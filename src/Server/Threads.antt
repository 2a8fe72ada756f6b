-- ===== src/Server/Threads.antt =====
-- monitor_run() of monitor.c and the polling thread that calls server_recv_request_and_dispatch(),
-- as steps of the two threads in any order.
use realboy.Prelude.{ℕ, Bool, true, false, if◌then◌else◌, List, ◌++◌, some, ◌≡◌}
use realboy.Machine.{Machine}
use realboy.Monitor.Run.{exec_next, Key, monitor_set_key}
use realboy.Server.{
  Server, Request, Handled, Message, server_is_stopped, server_recv_request_and_dispatch,
  got_stop_request, hit_breakpoint,
}

-- Where the thread of the emulator is: at the head of its outer loop, waiting for
-- `cnd_server_stop`, before exec_next(), before got_stop_request() or before hit_breakpoint() in the
-- test of its inner loop, or behind that loop. Inside the loop the server answers a request to stop
-- alone. It clears `server_running`, as hit_breakpoint() does at its end, and sets
-- `server_stop_request`, which got_stop_request() reads and clears under a lock. So such a request
-- comes before or behind each of the two functions as a whole.
pub data Place : Type 0 where
  at_head asleep executing checking hitting leaving : Place

-- `poll_waits` says that the polling thread waits for `cnd_server_stop`, after a request to stop.
pub record System : Type 0 where
  pub machine : Machine
  pub server : Server
  pub place : Place
  pub poll_waits : Bool
  pub sent : List Message

abbrev pub go : Place → System → System
go p y = record y { place = p }

-- Behind got_stop_request(), and behind hit_breakpoint(): the two operands of
-- server_should_stop_execution().
abbrev pub asked : System → Server × Bool → System
asked y (server, got) = record y { server = server; place = if got then leaving else hitting }

abbrev pub checked : System → Server × (Bool × List Message) → System
checked y (server, (stops, sent)) = record y {
  server = server;
  place = if stops then leaving else executing;
  sent = y.sent ++ sent;
}

-- One step of monitor_run() from a place. `locked` is the outcome of its pthread_rwlock_tryrdlock().
unfoldable pub monitor_run_at : Place → Bool → System → System
monitor_run_at at_head locked y =
    if y.server.client_connected
    then (if server_is_stopped y.server then go asleep y else go executing y)
    else record y { machine = exec_next y.machine }
monitor_run_at asleep locked y = y
monitor_run_at executing locked y = record y { machine = exec_next y.machine; place = checking }
monitor_run_at checking locked y = asked y (got_stop_request locked y.server)
monitor_run_at hitting locked y = checked y (hit_breakpoint y.machine.cpu.regs y.server)
monitor_run_at leaving locked y = record y { place = at_head; poll_waits = false }

abbrev pub monitor_run : Bool → System → System
monitor_run locked y = monitor_run_at y.place locked y

-- A signal of `cnd_server_stop` wakes the thread of the emulator.
abbrev pub woken : Bool → Place → Place
woken true asleep = at_head
woken _ p = p

abbrev pub after : System → Handled → System
after y h = record y { server = h.server; place = woken h.signals y.place; poll_waits = h.waits }

-- The steps of the two threads. A request comes while the polling thread does not wait, and keys
-- come through the same thread.
pub data Turn : System → System → Type 0 where
  runs : (y : System) (locked : Bool) → Turn y (monitor_run locked y)
  receives :
      (y : System) (req : Request) (h : Handled)
      → y.poll_waits ≡ false
      → server_recv_request_and_dispatch y.machine y.server req ≡ some h
      → Turn y (after y h)
  presses :
      (y : System) (is_focus : Bool) (key : Key) (value : ℕ)
      → y.poll_waits ≡ false
      → Turn y (record y { machine = monitor_set_key is_focus key value y.machine })

pub data Turns : System → System → Type 0 where
  here : (y : System) → Turns y y
  then_turn : (x y z : System) → Turns x y → Turn y z → Turns x z
