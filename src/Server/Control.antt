-- ===== src/Server/Control.antt =====
-- About the control flow of server.c: where the inner loop of monitor_run() runs and stops.
use realboy.Prelude.{
  ℕ, zero, suc, ◌+◌, ◌*◌, ◌<◌, ◌≡◌, refl, ap, ◌∙◌, arith, Bool, true, false, ◌&&◌, ◌||◌, ◌==◌, List,
  [], ◌∷◌, ◌++◌,
}
use mathlib.Core.List.{append-nil}
use realboy.Machine.{Registers, Machine}
use realboy.Cpu.Peek.{peek_get_cpu_reg}
use realboy.Monitor.Run.{exec_next}
use realboy.Server.{
  Server, Message, hit_next, has_breakpoint, hit_address, hit_breakpoint, got_stop_request,
  server_should_stop_execution,
}
use realboy.Server.Threads.{System, at_head, go, checked, executing, monitor_run_at, monitor_run}

-- `n` times.
unfoldable pub iterate {ℓ} : {A : Type ℓ} → ℕ → (A → A) → A → A
iterate zero f x = x
iterate (suc n) f x = iterate n f (f x)

-- The address is a breakpoint, or the one to run until.
abbrev pub stops_at : Server → ℕ → Bool
stops_at s addr =
    has_breakpoint s.breakpoint_list.length s.breakpoint_list.items 0 addr
    || (s.control_flow_until && s.until_addr == addr)

abbrev pub follows : Server → Bool
follows s = s.control_flow_continue || s.control_flow_until

hit_address-ret : (s : Server) (addr : ℕ) → (hit_address s addr).1.0 ≡ stops_at s addr
unfolding hit_address
hit_address-ret s addr = ground arith

hit_address-passes :
    (s : Server) (addr : ℕ) → stops_at s addr ≡ false → hit_address s addr ≡ (s, (false, []))
unfolding hit_address
hit_address-passes s addr h = ground arith

module _ (r : Registers) (s : Server) (quiet : s.control_flow_next ≡ false)
    (on : follows s ≡ true) where
  hit_breakpoint-passes : stops_at s r.pc ≡ false → hit_breakpoint r s ≡ (s, (false, []))
  unfolding hit_breakpoint peek_get_cpu_reg
  hit_breakpoint-passes h = rw (on, hit_address-passes s r.pc h, quiet) refl

  hit_breakpoint-stops :
      stops_at s r.pc ≡ true
      → ((hit_breakpoint r s).0.server_running ≡ false) × ((hit_breakpoint r s).1.0 ≡ true)
  unfolding hit_breakpoint peek_get_cpu_reg hit_address
  hit_breakpoint-stops h = ground arith

-- Behind a test that stops, the loop is left and the state is that of the test.
leaves :
    (y : System) (t : Server × (Bool × List Message))
    → t.1.0 ≡ true
    → monitor_run true (checked y t)
      ≡ record y { server = t.0; sent = y.sent ++ t.1.1; place = at_head; poll_waits = false }
unfolding monitor_run_at
leaves y (s, (stops, sent)) e = rw e refl

-- A round of the inner loop: an instruction, and the test behind it.
abbrev following : System → System
following y = record y { machine = exec_next y.machine }

module _ (y : System) (unasked : y.server.server_stop_request ≡ false) where
  test : Server × (Bool × List Message)
  test = hit_breakpoint (following y).machine.cpu.regs y.server

  round : iterate 3 (monitor_run true) (go executing y) ≡ checked (following y) test
  unfolding iterate monitor_run_at test got_stop_request
  round = rw unasked refl

  leaves_loop :
      test.1.0 ≡ true
      → iterate 4 (monitor_run true) (go executing y) ≡ record y {
        machine = exec_next y.machine;
        server = test.0;
        sent = y.sent ++ test.1.1;
        place = at_head;
        poll_waits = false;
      }
  unfolding iterate
  leaves_loop e = ap (monitor_run true) round ∙ leaves (following y) test e

  -- The two parts of the test are server_should_stop_execution().
  whole_test : server_should_stop_execution true (following y).machine.cpu.regs y.server ≡ test
  unfolding test server_should_stop_execution got_stop_request
  whole_test = rw unasked refl

module _ (y : System) (quiet : y.server.control_flow_next ≡ false) (on : follows y.server ≡ true)
    (unasked : y.server.server_stop_request ≡ false) where
  round-passes :
      stops_at y.server (following y).machine.cpu.regs.pc ≡ false
      → iterate 3 (monitor_run true) (go executing y) ≡ go executing (following y)
  unfolding test
  round-passes h =
      round y unasked
      ∙ ap (checked (following y))
          (hit_breakpoint-passes (following y).machine.cpu.regs y.server quiet on h)
      ∙ ap (λ (sent : List Message). record (following y) { place = executing; sent = sent })
          (append-nil y.sent)

  round-stops :
      stops_at y.server (following y).machine.cpu.regs.pc ≡ true
      → let z = iterate 4 (monitor_run true) (go executing y) in
        ((z.machine ≡ (following y).machine) × (z.place ≡ at_head))
        × (z.server.server_running ≡ false)
  unfolding test
  round-stops h =
      let hit = hit_breakpoint-stops (following y).machine.cpu.regs y.server quiet on h in
      let end = leaves_loop y unasked hit.1 in
      (
        (ap (λ (z : System). z.machine) end, ap (λ (z : System). z.place) end),
        ap (λ (z : System). z.server.server_running) end ∙ hit.0,
      )

abbrev pub executed : ℕ → Machine → Machine
executed n m = iterate n exec_next m

-- While the emulator follows a request to continue or to run until an address, with no request for
-- the next instruction or to stop, it executes up to the first instruction behind which the program
-- counter is at an address to stop at: it is then out of its inner loop, and the server does not
-- run.
pub run_to_stop :
    (n : ℕ) (y : System)
    → y.server.control_flow_next ≡ false
    → follows y.server ≡ true
    → y.server.server_stop_request ≡ false
    → ((i : ℕ) → i < n → stops_at y.server (executed (suc i) y.machine).cpu.regs.pc ≡ false)
    → stops_at y.server (executed (suc n) y.machine).cpu.regs.pc ≡ true
    → let z = iterate (n * 3 + 4) (monitor_run true) (go executing y) in
      ((z.machine ≡ executed (suc n) y.machine) × (z.place ≡ at_head))
      × (z.server.server_running ≡ false)
unfolding iterate
run_to_stop zero y quiet on unasked passes stops = round-stops y quiet on unasked stops
run_to_stop (suc n) y quiet on unasked passes stops =
    let first = round-passes y quiet on unasked (passes 0 (omega arith)) in
    let count : suc n * 3 + 4 ≡ suc (suc (suc (n * 3 + 4))) = omega arith in
    let way : iterate (suc n * 3 + 4) (monitor_run true) (go executing y)
        ≡ iterate (n * 3 + 4) (monitor_run true) (go executing (following y)) =
      ap (λ (k : ℕ). iterate k (monitor_run true) (go executing y)) count
      ∙ ap (iterate (n * 3 + 4) (monitor_run true)) first in
    let rest =
      run_to_stop n (following y) quiet on unasked (λ i h. passes (suc i) (omega arith)) stops in
    (
      (ap (λ (z : System). z.machine) way ∙ rest.0.0, ap (λ (z : System). z.place) way ∙ rest.0.1),
      ap (λ (z : System). z.server.server_running) way ∙ rest.1,
    )

-- Where a request to stop is pending and its lock is free, the emulator leaves its inner loop
-- behind one instruction, clears the request, and wakes the thread that waits for it.
pub stop_lem :
    (y : System)
    → y.server.server_stop_request ≡ true
    → let z = iterate 3 (monitor_run true) (go executing y) in
      ((z.machine ≡ exec_next y.machine) × (z.place ≡ at_head))
      × ((z.poll_waits ≡ false) × (z.server ≡ record y.server { server_stop_request = false }))
unfolding iterate monitor_run_at got_stop_request
stop_lem y asked = rw asked ((refl, refl), (refl, refl))

module _ (r : Registers) (s : Server) (c : s.control_flow_continue ≡ false)
    (u : s.control_flow_until ≡ false) (n : s.control_flow_next ≡ true) where
  hit_breakpoint-next :
      hit_breakpoint r s
      ≡ (record s { control_flow_next = false; server_running = false }, (true, hit_next ∷ []))
  unfolding hit_breakpoint
  hit_breakpoint-next = rw (c, u, n) refl

-- A request for the next instruction, with no other pending, executes one instruction, answers, and
-- leaves the server stopped.
pub next_lem :
    (y : System)
    → y.server.control_flow_continue ≡ false
    → y.server.control_flow_until ≡ false
    → y.server.control_flow_next ≡ true
    → y.server.server_stop_request ≡ false
    → iterate 4 (monitor_run true) (go executing y) ≡ record y {
      machine = exec_next y.machine;
      server = record y.server { control_flow_next = false; server_running = false };
      place = at_head;
      poll_waits = false;
      sent = y.sent ++ (hit_next ∷ []);
    }
unfolding test
next_lem y c u n unasked =
    let tested = hit_breakpoint-next _ y.server c u n in
    leaves_loop y unasked (ap (λ (t : Server × (Bool × List Message)). t.1.0) tested)
    ∙ ap
        (λ (t : Server × (Bool × List Message)). record y {
          machine = exec_next y.machine;
          server = t.0;
          sent = y.sent ++ t.1.1;
          place = at_head;
          poll_waits = false;
        })
        tested
