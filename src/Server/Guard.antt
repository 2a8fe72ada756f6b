-- ===== src/Server/Guard.antt =====
-- About the inner loop of monitor_run(): what holds whenever the emulator is inside.
use realboy.Prelude.{
  subst, ℕ, ◌≡◌, refl, arith, inl, ◌⊎◌, Bool, true, false, some, none, List, if-cases,
}
use realboy.Machine.{Registers, Machine}
use realboy.Server.{
  Server, until, delete, continue, next, break, other_control_flow, Request, control_flow, inspect,
  monitor, stop, resume, other_monitor, other_type, Handled, Message, handle_control_flow_delete,
  dispatch_control_flow, recv_monitor, server_recv_request_and_dispatch, hit_breakpoint,
  hit_address, got_stop_request, server_is_stopped, dispatch_monitor,
}
use realboy.Server.Threads.{
  System, at_head, asleep, executing, checking, hitting, leaving, asked, checked, Place, woken,
  monitor_run_at, Turn, runs, receives, presses, Turns, here, then_turn,
}

abbrev pub Excused : Server → Type 0
Excused s = (s.server_running ≡ true) ⊎ (s.server_stop_request ≡ true)

abbrev pub InLoop : Place → Server → Type 0
InLoop executing s = Excused s
InLoop checking s = Excused s
InLoop hitting s = Excused s
InLoop _ s = Unit

abbrev pub Guarded : System → Type 0
Guarded y = InLoop y.place y.server

-- A test that lets the loop go on leaves the server as it was, in what matters here.
hit_breakpoint-on :
    (r : Registers) (s : Server)
    → (hit_breakpoint r s).1.0 ≡ false
    → Excused s
    → Excused (hit_breakpoint r s).0
unfolding hit_breakpoint hit_address
hit_breakpoint-on r s e x = ground arith

asked-on :
    (locked : Bool) (s : Server)
    → (got_stop_request locked s).1 ≡ false
    → Excused s
    → Excused (got_stop_request locked s).0
unfolding got_stop_request
asked-on locked s e x = ground arith

asked-Guarded : (y : System) (t : Server × Bool) → (t.1 ≡ false → Excused t.0) → Guarded (asked y t)
asked-Guarded y (s, true) h = tt
asked-Guarded y (s, false) h = h refl

checked-Guarded :
    (y : System) (t : Server × (Bool × List Message))
    → (t.1.0 ≡ false → Excused t.0)
    → Guarded (checked y t)
checked-Guarded y (s, (true, sent)) h = tt
checked-Guarded y (s, (false, sent)) h = h refl

runs-Guarded :
    (p : Place) (locked : Bool) (y : System)
    → y.place ≡ p
    → Guarded y
    → Guarded (monitor_run_at p locked y)
unfolding monitor_run_at
runs-Guarded at_head locked y e g =
    if-cases Guarded y.server.client_connected _ _
      (λ _.
        if-cases Guarded (server_is_stopped y.server) _ _ (λ _. tt) (λ running. inl (ground arith)))
      (λ _. g)
runs-Guarded asleep locked y e g = g
runs-Guarded executing locked y e g = subst (λ (p : Place). InLoop p y.server) e g
runs-Guarded checking locked y e g =
    asked-Guarded y (got_stop_request locked y.server)
      (λ t. asked-on locked y.server t (subst (λ (p : Place). InLoop p y.server) e g))
runs-Guarded hitting locked y e g =
    checked-Guarded y (hit_breakpoint y.machine.cpu.regs y.server) (λ t.
      hit_breakpoint-on y.machine.cpu.regs y.server t
        (subst (λ (p : Place). InLoop p y.server) e g))
runs-Guarded leaving locked y e g = tt

delete-on :
    (s s' : Server) (addr : ℕ)
    → handle_control_flow_delete s addr ≡ some s'
    → Excused s
    → Excused s'
unfolding handle_control_flow_delete
delete-on s s' addr e x = ground arith

recv-Excused :
    (m : Machine) (s : Server) (req : Request) (h : Handled)
    → server_recv_request_and_dispatch m s req ≡ some h
    → Excused s
    → Excused h.server
unfolding server_recv_request_and_dispatch recv_monitor dispatch_control_flow dispatch_monitor
recv-Excused m s (control_flow (until addr)) h e x = ground arith
recv-Excused m s (control_flow (delete none)) h e x = ground (arith, delete-on s)
recv-Excused m s (control_flow (delete (some addr))) h e x = ground (arith, delete-on s)
recv-Excused m s (control_flow continue) h e x = ground arith
recv-Excused m s (control_flow next) h e x = ground arith
recv-Excused m s (control_flow (break addr)) h e x = ground arith
recv-Excused m s (control_flow other_control_flow) h e x = ground arith
recv-Excused m s (inspect r) h e x = ground arith
recv-Excused m s (monitor stop) h e x = ground arith
recv-Excused m s (monitor resume) h e x = ground arith
recv-Excused m s (monitor other_monitor) h e x = ground arith
recv-Excused m s other_type h e x = ground arith

after-Guarded :
    (p : Place) (signals : Bool) (s s' : Server)
    → (Excused s → Excused s')
    → InLoop p s
    → InLoop (woken signals p) s'
after-Guarded at_head true s s' k g = tt
after-Guarded at_head false s s' k g = tt
after-Guarded asleep true s s' k g = tt
after-Guarded asleep false s s' k g = tt
after-Guarded executing true s s' k g = k g
after-Guarded executing false s s' k g = k g
after-Guarded checking true s s' k g = k g
after-Guarded checking false s s' k g = k g
after-Guarded hitting true s s' k g = k g
after-Guarded hitting false s s' k g = k g
after-Guarded leaving true s s' k g = tt
after-Guarded leaving false s s' k g = tt

Turn-Guarded : (y z : System) → Turn y z → Guarded y → Guarded z
Turn-Guarded _ _ (runs y locked) g = runs-Guarded y.place locked y refl g
Turn-Guarded _ _ (receives y req h free e) g =
    after-Guarded y.place h.signals y.server h.server (recv-Excused y.machine y.server req h e) g
Turn-Guarded _ _ (presses y is_focus key value free) g = g

-- Whatever steps the two threads take, the emulator is inside its inner loop only while the server
-- runs or a request to stop is pending, if that was so before.
pub Turns-Guarded : (y z : System) → Turns y z → Guarded y → Guarded z
Turns-Guarded _ _ (here y) g = g
Turns-Guarded _ _ (then_turn x y z before turn) g =
    Turn-Guarded y z turn (Turns-Guarded x y before g)
