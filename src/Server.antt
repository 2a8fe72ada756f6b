-- ===== src/Server.antt =====
-- server.c: what the debugger's client may ask for, and when the machine has to stop for it. The
-- messages come from the library libemu, and go to it.
pub mod Threads
pub mod Control
pub mod Deadlock
pub mod Guard
use realboy.Prelude.{
  ℕ, zero, suc, ◌+◌, Bool, true, false, not, ◌&&◌, ◌||◌, ◌==◌, if◌then◌else◌, u16, List, [], ◌∷◌,
  ◌++◌, Option, none, some,
}
use mathlib.Core.Option.{map}
use realboy.Machine.{Registers, Machine}
use realboy.Cpu.Peek.{CpuPeek, peek_get_cpu_reg, cpu_reg_pc, cpu_peek}
use realboy.Ppu.Peek.{PpuPeek, ppu_peek}
use realboy.ItemList.{ItemList, list_add, list_remove}

-- The static variables of server.c.
pub record Server : Type 0 where
  pub breakpoint_list : ItemList
  pub until_addr : ℕ
  pub control_flow_continue : Bool
  pub control_flow_until : Bool
  pub control_flow_next : Bool
  pub client_connected : Bool
  pub server_running : Bool
  pub server_stop_request : Bool

abbrev pub resume_execution : Server → Server
resume_execution s = record s { server_running = true }

abbrev pub stop_execution : Server → Server
stop_execution s = record s { server_running = false }

-- The payload of CONTROL_FLOW_DELETE may be missing.
pub data ControlFlow : Type 0 where
  until : ℕ → ControlFlow
  delete : Option ℕ → ControlFlow
  continue next : ControlFlow
  break : ℕ → ControlFlow
  other_control_flow : ControlFlow

pub data MonitorRequest : Type 0 where
  stop resume other_monitor : MonitorRequest

pub data Inspect : Type 0 where
  inspect_cpu : CpuPeek → Inspect
  inspect_ppu : PpuPeek → Inspect
  other_inspect : Inspect

pub data Request : Type 0 where
  control_flow : ControlFlow → Request
  inspect : Inspect → Request
  monitor : MonitorRequest → Request
  other_type : Request

-- `list_for_each` with a test: the first of `n` items from `d` on that is `addr`, or any where
-- `addr` is 0.
unfoldable pub find_breakpoint : ℕ → (ℕ → ℕ) → ℕ → ℕ → Option ℕ
find_breakpoint zero items d addr = none
find_breakpoint (suc n) items d addr =
    let rest = find_breakpoint n items (d + 1) addr in
    if items d == addr || addr == 0 then some (items d) else rest

-- `none` is the undefined call of memmove() in list_del().
unfoldable pub handle_control_flow_delete : Server → ℕ → Option Server
unfolding find_breakpoint
handle_control_flow_delete s addr =
    let l = s.breakpoint_list in
    elim (find_breakpoint l.length l.items 0 addr) [
      | none ↦ some s
      | some breakpoint ↦
          map (λ (l' : ItemList). record s { breakpoint_list = l' }) (list_remove l breakpoint)
    ]

unfoldable pub dispatch_control_flow : Server → ControlFlow → Option Server
unfolding handle_control_flow_delete
dispatch_control_flow s (until addr) =
    some (resume_execution (record s { control_flow_until = true; until_addr = u16 addr }))
dispatch_control_flow s (delete none) = handle_control_flow_delete s 0
dispatch_control_flow s (delete (some addr)) = handle_control_flow_delete s addr
dispatch_control_flow s continue =
    some (resume_execution (record s { control_flow_continue = true }))
dispatch_control_flow s next = some (resume_execution (record s { control_flow_next = true }))
dispatch_control_flow s (break addr) =
    map (λ (l' : ItemList). record s { breakpoint_list = l' }) (list_add s.breakpoint_list addr)
dispatch_control_flow s other_control_flow = some s

unfoldable pub dispatch_monitor : Server → MonitorRequest → Server
dispatch_monitor s stop = stop_execution s
dispatch_monitor s resume = resume_execution s
dispatch_monitor s other_monitor = s

-- A subtype that is none of these leaves `peek` and the reply undetermined.
unfoldable pub dispatch_inspect : Machine → Inspect → Option (List ℕ)
unfolding cpu_peek ppu_peek
dispatch_inspect m (inspect_cpu peek) = cpu_peek m peek
dispatch_inspect m (inspect_ppu peek) = ppu_peek m.ppu peek
dispatch_inspect m other_inspect = none

-- What a request does besides: whether the condition `cnd_server_stop` is signalled, or waited for,
-- and the answer that is sent.
pub record Handled : Type 0 where
  pub server : Server
  pub signals : Bool
  pub waits : Bool
  pub answer : Option (List ℕ)

abbrev pub ignored : Server → Handled
ignored s = record { server = s; signals = false; waits = false; answer = none }

abbrev pub set_stop_request : Server → Server
set_stop_request s = record s { server_stop_request = true }

-- The case TYPE_MONITOR, where taking `quick_lock` is taken to succeed.
unfoldable pub recv_monitor : Server → MonitorRequest → Handled
unfolding dispatch_monitor
recv_monitor s stop =
    if s.server_running
    then record (ignored (set_stop_request (dispatch_monitor s stop))) { waits = true }
    else ignored s
recv_monitor s resume = if s.server_running then ignored s else ignored (dispatch_monitor s resume)
recv_monitor s other_monitor = ignored (dispatch_monitor s other_monitor)

-- `none` stands for undefined behaviour: that of list_add() or list_del(), or of an answer that was
-- never filled.
unfoldable pub server_recv_request_and_dispatch : Machine → Server → Request → Option Handled
unfolding dispatch_control_flow dispatch_inspect recv_monitor
server_recv_request_and_dispatch m s (control_flow req) =
    if s.server_running
    then some (ignored s)
    else map (λ s'. record (ignored s') { signals = true }) (dispatch_control_flow s req)
server_recv_request_and_dispatch m s (inspect req) =
    if s.server_running
    then some (ignored s)
    else map (λ (reply : List ℕ). record (ignored s) { answer = some reply })
        (dispatch_inspect m req)
server_recv_request_and_dispatch m s (monitor req) = some (recv_monitor s req)
server_recv_request_and_dispatch m s other_type = some (ignored s)

abbrev pub server_is_stopped : Server → Bool
server_is_stopped s = not s.server_running

-- `list_for_each` in hit_breakpoint(): whether one of `n` items from `d` on is `addr`.
unfoldable pub has_breakpoint : ℕ → (ℕ → ℕ) → ℕ → ℕ → Bool
has_breakpoint zero items d addr = false
has_breakpoint (suc n) items d addr = items d == addr || has_breakpoint n items (d + 1) addr

-- The messages that hit_breakpoint() sends, with the address that they carry.
pub data Message : Type 0 where
  hit_break hit_until : ℕ → Message
  hit_next : Message

-- The part under `control_flow_continue || control_flow_until`: the server, `ret`, and the message.
unfoldable pub hit_address : Server → ℕ → Server × (Bool × List Message)
unfolding has_breakpoint
hit_address s addr =
    let l = s.breakpoint_list in
    let at_break = has_breakpoint l.length l.items 0 addr in
    let s1 = if at_break then record s { control_flow_continue = false } else s in
    if s1.control_flow_until && s1.until_addr == addr
    then (
      record s1 { control_flow_until = false; control_flow_continue = false; until_addr = 0 },
      (true, hit_until addr ∷ []),
    )
    else (s1, (at_break, if at_break then hit_break addr ∷ [] else []))

unfoldable pub hit_breakpoint : Registers → Server → Server × (Bool × List Message)
unfolding hit_address
hit_breakpoint r s =
    let addr = peek_get_cpu_reg cpu_reg_pc r in
    let (s1, (ret1, sent1)) =
      if s.control_flow_continue || s.control_flow_until
      then hit_address s addr
      else (s, (false, [])) in
    let s2 = if s1.control_flow_next then record s1 { control_flow_next = false } else s1 in
    let ret2 = s1.control_flow_next || ret1 in
    let sent2 = if s1.control_flow_next then sent1 ++ (hit_next ∷ []) else sent1 in
    (if ret2 then stop_execution s2 else s2, (ret2, sent2))

-- `locked` says whether pthread_rwlock_tryrdlock() got the lock.
unfoldable pub got_stop_request : Bool → Server → Server × Bool
got_stop_request locked s =
    if locked && s.server_stop_request
    then (record s { server_stop_request = false }, true)
    else (s, false)

unfoldable pub server_should_stop_execution :
    Bool → Registers → Server → Server × (Bool × List Message)
server_should_stop_execution locked r s =
    let (s1, got) = got_stop_request locked s in
    if got then (s1, (true, [])) else hit_breakpoint r s1

-- Where libemu starts and a client that is waited for comes. create_list() makes an empty list with
-- room for ten items.
unfoldable pub server_init : Bool → Server → Server
server_init wait_for_client s = record s {
  breakpoint_list = record { capacity = 10; length = 0; items = s.breakpoint_list.items };
  client_connected = wait_for_client || s.client_connected;
  server_running = not wait_for_client;
}
