-- ===== src/Tests/ServerRuns.antt =====
-- The theorems of the debugger's server at a system that runs the test machine.
use realboy.Prelude.{◌≡◌, refl, arith, true, false, [], inl, ◌∷◌}
use realboy.Cpu.Port.{cpu_request_intr}
use realboy.Cpu.Bus.{wr_word}
use realboy.Cpu.Flow.{push_pc}
use realboy.Cpu.Exec.{
  fetch_execute, tick_div, tick_timer, tick_tima, handle_intrs, intr_loop, check_intr, process_intr,
  cpu_exec_next,
}
use realboy.Ppu.Phase.{change_phase_from, ppu_refresh}
use realboy.Monitor.{monitor_wr_mem, wr_mem_depth, wr_mem_body}
use realboy.Monitor.Run.{exec_next}
use realboy.Server.{Server, resume, stop, hit_next, recv_monitor}
use realboy.Server.Threads.{
  System, at_head, asleep, executing, go, after, monitor_run, Turns, here, then_turn, runs,
}
use realboy.Server.Control.{iterate, executed, stops_at, run_to_stop, stop_lem, next_lem}
use realboy.Server.Deadlock.{resume-asleep, stop-unanswered}
use realboy.Server.Guard.{Guarded, Turns-Guarded}
use realboy.Tests.Data.{test_machine}

-- A client is connected, and asked to run until the handler of the timer's interrupt.
abbrev test_server : Server
test_server = record {
  breakpoint_list = record { capacity = 10; length = 0; items = λ i. 0 };
  until_addr = 0x50;
  control_flow_continue = false;
  control_flow_until = true;
  control_flow_next = false;
  client_connected = true;
  server_running = true;
  server_stop_request = false;
}

abbrev test_system : System
test_system = record {
  machine = test_machine;
  server = test_server;
  place = executing;
  poll_waits = false;
  sent = [];
}

-- The halted cpu services the timer's interrupt.
enters_handler : (exec_next test_machine).cpu.regs.pc ≡ 0x50
unfolding exec_next ppu_refresh change_phase_from cpu_exec_next fetch_execute tick_div tick_timer
    tick_tima handle_intrs intr_loop check_intr process_intr cpu_request_intr push_pc wr_word
    monitor_wr_mem wr_mem_depth wr_mem_body
enters_handler = refl

stops_there : stops_at test_server (executed 1 test_machine).cpu.regs.pc ≡ true
unfolding iterate
stops_there = ground (arith, enters_handler)

run_to_stop_example :
    let z = iterate 4 (monitor_run true) (go executing test_system) in
    ((z.machine ≡ executed 1 test_machine) × (z.place ≡ at_head))
    × (z.server.server_running ≡ false)
run_to_stop_example =
    run_to_stop 0 test_system refl refl refl (λ i h. absurd (omega arith)) stops_there

abbrev asked_to_stop : System
asked_to_stop = record test_system {
  server = record test_server { server_stop_request = true; server_running = false };
  poll_waits = true;
}

stop_lem_example :
    let z = iterate 3 (monitor_run true) (go executing asked_to_stop) in
    ((z.machine ≡ exec_next test_machine) × (z.place ≡ at_head))
    × ((z.poll_waits ≡ false)
        × (z.server ≡ record asked_to_stop.server { server_stop_request = false }))
stop_lem_example = stop_lem asked_to_stop refl

abbrev stepping : System
stepping = record test_system {
  server = record test_server { control_flow_until = false; control_flow_next = true };
}

next_lem_example : iterate 4 (monitor_run true) (go executing stepping) ≡ record stepping {
  machine = exec_next test_machine;
  server = record stepping.server { control_flow_next = false; server_running = false };
  place = at_head;
  sent = hit_next ∷ [];
}
next_lem_example = next_lem stepping refl refl refl refl

-- A client that was waited for asks to resume.
abbrev sleeping : System
sleeping = record test_system {
  server = record test_server { server_running = false };
  place = asleep;
}

abbrev resumed : System
resumed = after sleeping (recv_monitor sleeping.server resume)

resumed-Turns : Turns resumed (monitor_run true resumed)
resumed-Turns = then_turn _ _ _ (here resumed) (runs resumed true)

resume-asleep_example :
    ((monitor_run true resumed).place ≡ asleep)
    × ((monitor_run true resumed).machine.cpu ≡ test_machine.cpu)
resume-asleep_example = resume-asleep sleeping (monitor_run true resumed) refl refl resumed-Turns

-- A client that was not waited for asks to stop.
abbrev alone : System
alone = record test_system {
  server = record test_server { client_connected = false };
  place = at_head;
}

abbrev stopped : System
stopped = after alone (recv_monitor alone.server stop)

stopped-Turns : Turns stopped (monitor_run true stopped)
stopped-Turns = then_turn _ _ _ (here stopped) (runs stopped true)

stop-unanswered_example : (monitor_run true stopped).poll_waits ≡ true
stop-unanswered_example =
    stop-unanswered alone (monitor_run true stopped) refl refl refl stopped-Turns

Turns-Guarded_example : Guarded (monitor_run true test_system)
Turns-Guarded_example =
    Turns-Guarded test_system (monitor_run true test_system)
      (then_turn _ _ _ (here test_system) (runs test_system true)) (inl refl)
