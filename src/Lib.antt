-- ===== src/Lib.antt =====
-- A model of the RealBoy emulator, and what is proved of it.
--
-- The program emulates a Game Boy. src/monitor.c owns the loop: exec_next() has the cpu execute one
-- instruction and the ppu catch up with its cycles. The cpu and the ppu load and store through
-- monitor_rd_mem() and monitor_wr_mem(), which route an address to the cpu (its RAMs and IO
-- registers), the ppu (tiles, objects, LCD registers), the cartridge, or the joypad and the other IO
-- registers. A store to the DMA register of the ppu comes back to the monitor. Both the cpu and the
-- ppu request interrupts, which the cpu services at the end of a step.
--
-- State is passed explicitly. Machine.antt has the globals of all parts as one record: Registers,
-- Cpu, PpuRegs, Ppu, Mbc1 and Keys keep the field names of the C structs. A function that changes
-- globals takes a machine and returns one. Integers are natural numbers with their wrap-around
-- written out; an `int` that may be negative is its 32-bit pattern. Arrays are functions from an
-- index, and the bounds are those of the code's own tests. Machine/Valid.antt has the well-formedness
-- that the invariants speak of.
--
-- - Prelude.antt: tests, words, bit operations, and the names that the other modules share.
-- - Cpu/Port.antt: cpu_rd(), cpu_wr(), cpu_request_intr() of src/emu/cpu/cpu.c.
-- - Cpu/Flags.antt, Cpu/Arith.antt, Cpu/Logic.antt, Cpu/Rotate.antt: the macros of
--   src/emu/cpu/cpu_ops.c. Their children hold them to independent descriptions.
-- - Cpu/Bus.antt, Cpu/Load.antt, Cpu/Alu.antt, Cpu/Shift.antt, Cpu/Flow.antt: the functions op_*()
--   of that file, one definition for a family that a macro makes, with the cycles that they return.
-- - Cpu/Ops.antt, Cpu/Table.antt: the entries of table_ops as data, and ops_table_dispatch().
-- - Cpu/Exec.antt: cpu_exec_next() and handle_intrs(); Cpu/Interrupts.antt and Cpu/Timer.antt are
--   about them, Cpu/Stack.antt about the stack, Cpu/Cycles.antt about the cycles, Cpu/Length.antt
--   about the lengths of instructions, Cpu/Valid.antt about well-formedness.
-- - Cpu/Peek.antt, Ppu/Peek.antt: cpu_peek() and ppu_peek(), which read for the debugger.
-- - Ppu/Port.antt, Ppu/Oam.antt: ppu_rd(), ppu_wr() and oam_rehash() of src/emu/ppu.c, where
--   Machine/Hash.antt says what `oam_hash` has to be. Ppu/Phase.antt: ppu_refresh() and the phases.
-- - Ppu/Tile.antt, Ppu/Objects.antt, Ppu/Render.antt: the tiles, the objects at a pixel, and
--   ppu_render_line() of src/emu/ppu.c, which stores pixels by render_draw_pixel() of src/render.c.
--   An object is its offset in `oam`, where the code has a pointer. Machine/ScreenState.antt has
--   `dmg_buf`; a pixel whose value the code leaves undetermined is a missing one.
-- - Mbc.antt: src/emu/mem/mbc1.c. The file of the cartridge is its size and its bytes.
-- - Monitor.antt: the two memory functions of src/monitor.c; Monitor/Ram.antt, Monitor/Joypad.antt
--   and Monitor/Depth.antt are about them. Monitor/Run.antt: exec_next(), monitor_set_key(), and
--   the runs of the machine.
-- - ItemList.antt: src/list.c. A store behind the array and what memmove() leaves undefined are
--   missing results.
-- - Server.antt: src/server.c, with its static variables as a record. A message of the debugger is
--   an argument, what is sent back is a result. Server/Threads.antt: the loop of monitor_run() and
--   the thread that polls for requests, as two kinds of step that come in any order. Each step is
--   what a thread does from one place to the next where the other can come between; the wait for
--   `cnd_server_stop` and its signals are part of the state.
-- - Monitor/Throttle.antt: monitor_throttle_fps() of src/monitor.c, with the time and the count of
--   frames as arguments and the wait as a result. It is apart from the state of the machine.
-- - Main.antt: main() of src/main.c, as the list of the calls that it makes when some of them fail.
-- - Tests.antt: a machine, and the theorems at it.
--
-- Fuel: the loop of handle_intrs() has 9 units, one for each test of its mask, and has no result
-- without enough (Cpu/Interrupts.antt); monitor_wr_mem() has a depth of 2, itself and the stores of
-- a DMA (Monitor/Depth.antt); the walks of oam_rehash() and get_objs_at_xy() have a unit for each
-- cell of `oam_hash` from where they start. The walk of get_pixel_priority_from_objs() has the 40
-- rounds of its loop, and the loops of ppu_render_line() theirs.
--
-- Not modelled: what only talks to the system or to a library. These are src/iopoll.c and
-- src/backends, the opening of files and the printing of the header in src/emu/mem/mbc.c, and of
-- src/render.c the scaling of a frame by pixman and the memory that it shares. In src/server.c,
-- libemu is taken to deliver each request, a lock is taken to be had, and a wait ends only by a
-- signal.
pub mod Prelude
pub mod Machine
pub mod Cpu
pub mod Ppu
pub mod Mbc
pub mod Monitor
pub mod Tests
pub mod ItemList
pub mod Server
pub mod Main
