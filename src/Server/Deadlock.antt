-- ===== src/Server/Deadlock.antt =====
-- About the condition `cnd_server_stop` of server.c and monitor.c: who signals it, and what becomes
-- of a thread that waits for it. A wait ends by a signal here, never spuriously.
use realboy.Prelude.{
  subst, ℕ, ◌≡◌, ◌≢◌, refl, ap, ◌∙◌, sym, arith, inl, inr, ◌⊎◌, Bool, true, false, some,
  if◌then◌else◌,
}
use realboy.Machine.{Machine}
use realboy.Monitor.Run.{Key, exec_next, monitor_set_key}
use realboy.Server.{
  Server, Request, control_flow, inspect, monitor, stop, resume, other_monitor, other_type, Handled,
  ignored, server_is_stopped, dispatch_monitor, recv_monitor, server_recv_request_and_dispatch,
}
use realboy.Server.Threads.{
  System, at_head, asleep, executing, go, Place, woken, after, monitor_run_at, monitor_run, Turn,
  runs, receives, presses, Turns, here, then_turn,
}

-- While the server runs, every request but one to stop is refused: nothing changes, nothing is
-- signalled and nothing is answered.
pub recv-running :
    (m : Machine) (s : Server) (req : Request)
    → s.server_running ≡ true
    → req ≢ monitor stop
    → server_recv_request_and_dispatch m s req ≡ some (ignored s)
unfolding server_recv_request_and_dispatch recv_monitor
recv-running m s (control_flow r) running other = rw running refl
recv-running m s (inspect r) running other = rw running refl
recv-running m s (monitor stop) running other = absurd (other refl)
recv-running m s (monitor resume) running other = rw running refl
recv-running m s (monitor other_monitor) running other = refl
recv-running m s other_type running other = refl

-- The thread of the emulator sleeps, and nobody is left to wake it.
abbrev pub Stuck : System → Type 0
Stuck y = (y.place ≡ asleep) × ((y.server.server_running ≡ true) ⊎ (y.poll_waits ≡ true))

-- What the server makes of a request while it runs.
abbrev pub Refused : Server → Handled → Type 0
Refused s h = (h.signals ≡ false) × ((h.server.server_running ≡ true) ⊎ (h.waits ≡ true))

recv-Refused :
    (m : Machine) (s : Server) (req : Request) (h : Handled)
    → s.server_running ≡ true
    → server_recv_request_and_dispatch m s req ≡ some h
    → Refused s h
unfolding server_recv_request_and_dispatch recv_monitor
recv-Refused m s (monitor stop) h running e = ground arith
recv-Refused m s (control_flow r) h running e = ground arith
recv-Refused m s (inspect r) h running e = ground arith
recv-Refused m s (monitor resume) h running e = ground arith
recv-Refused m s (monitor other_monitor) h running e = ground arith
recv-Refused m s other_type h running e = ground arith

-- A sleeping thread takes no step of its own.
sleeping : (y : System) (locked : Bool) → y.place ≡ asleep → monitor_run locked y ≡ y
unfolding monitor_run_at
sleeping y locked sleeps = ap (λ (p : Place). monitor_run_at p locked y) sleeps

monitor_set_key-cpu :
    (is_focus : Bool) (key : Key) (value : ℕ) (m : Machine)
    → (monitor_set_key is_focus key value m).cpu ≡ m.cpu
unfolding monitor_set_key
monitor_set_key-cpu true key value m = refl
monitor_set_key-cpu false key value m = refl

abbrev StillStuck : System → System → Type 0
StillStuck y z = Stuck z × (z.machine.cpu ≡ y.machine.cpu)

Turn-Stuck : (y z : System) → Turn y z → Stuck y → StillStuck y z
Turn-Stuck _ _ (runs y locked) stuck =
    subst (StillStuck y) (sym (sleeping y locked stuck.0)) (stuck, refl)
Turn-Stuck _ _ (receives y req h free e) (sleeps, inr waits) = cc
Turn-Stuck _ _ (receives y req h free e) (sleeps, inl running) =
    let r = recv-Refused y.machine y.server req h running e in
    ((ap (λ (b : Bool). woken b y.place) r.0 ∙ sleeps, r.1), refl)
Turn-Stuck _ _ (presses y is_focus key value free) stuck =
    (stuck, monitor_set_key-cpu is_focus key value y.machine)

Turns-Stuck : (y z : System) → Turns y z → Stuck y → StillStuck y z
Turns-Stuck _ _ (here y) stuck = (stuck, refl)
Turns-Stuck _ _ (then_turn x y z before turn) stuck =
    let first = Turns-Stuck x y before stuck in
    let last = Turn-Stuck y z turn first.0 in (last.0, last.1 ∙ first.1)

-- A request to resume, while the thread of the emulator sleeps and the server is stopped, wakes
-- nobody: whatever steps follow, the thread sleeps on and the cpu stays as it is.
pub resume-asleep :
    (y z : System)
    → y.place ≡ asleep
    → y.server.server_running ≡ false
    → Turns (after y (recv_monitor y.server resume)) z
    → (z.place ≡ asleep) × (z.machine.cpu ≡ y.machine.cpu)
unfolding recv_monitor dispatch_monitor
resume-asleep y z sleeps stopped turns =
    let resumed = after y (recv_monitor y.server resume) in
    let place : resumed.place ≡ asleep = rw stopped sleeps in
    let running : resumed.server.server_running ≡ true = rw stopped refl in
    let r = Turns-Stuck resumed z turns (place, inl running) in (r.0.0, r.1)

-- Where no client was waited for at the start, the polling thread that asks for a stop waits for
-- ever, and takes no request and no key any more.
abbrev pub Unanswered : System → Type 0
Unanswered y = ((y.server.client_connected ≡ false) × (y.place ≡ at_head)) × (y.poll_waits ≡ true)

runs_alone :
    (y : System) (locked : Bool)
    → y.place ≡ at_head
    → y.server.client_connected ≡ false
    → monitor_run locked y ≡ record y { machine = exec_next y.machine }
unfolding monitor_run_at
runs_alone y locked place alone =
    ap (λ (p : Place). monitor_run_at p locked y) place
    ∙ ap
        (λ (b : Bool).
          if b
          then (if server_is_stopped y.server then go asleep y else go executing y)
          else record y { machine = exec_next y.machine })
        alone

Turn-Unanswered : (y z : System) → Turn y z → Unanswered y → Unanswered z
Turn-Unanswered _ _ (runs y locked) u = subst Unanswered (sym (runs_alone y locked u.0.1 u.0.0)) u
Turn-Unanswered _ _ (receives y req h free e) u = cc
Turn-Unanswered _ _ (presses y is_focus key value free) u = u

Turns-Unanswered : (y z : System) → Turns y z → Unanswered y → Unanswered z
Turns-Unanswered _ _ (here y) u = u
Turns-Unanswered _ _ (then_turn x y z before turn) u =
    Turn-Unanswered y z turn (Turns-Unanswered x y before u)

-- Where no client was waited for at the start, the polling thread that takes a request to stop
-- waits for ever, whatever steps follow.
pub stop-unanswered :
    (y z : System)
    → y.server.client_connected ≡ false
    → y.place ≡ at_head
    → y.server.server_running ≡ true
    → Turns (after y (recv_monitor y.server stop)) z
    → z.poll_waits ≡ true
unfolding recv_monitor dispatch_monitor
stop-unanswered y z alone place running turns =
    let stopped = after y (recv_monitor y.server stop) in
    let u : Unanswered stopped = rw running ((alone, place), refl) in
    (Turns-Unanswered stopped z turns u).1
