-- ===== src/Tests/MemoryRuns.antt =====
-- The theorems of the memory and of the whole machine at the test machine.
use realboy.Prelude.{◌%◌, ◌==◌, ◌≡◌, refl, arith, inr, true}
use realboy.Machine.{internals, Machine}
use realboy.Machine.Hash.{Objects}
use realboy.Machine.Valid.{MachineValidFrom}
use realboy.Ppu.Oam.Lists.{mark}
use realboy.Ppu.Port.ObjectMemory.{with_oam-Valid, oam_rehash-HashRows}
use realboy.Mbc.{mbc1_rd_mem, mbc1_wr_mem}
use realboy.Mbc.Banks.{rd_mem-wr_mem_bank}
use realboy.Monitor.{monitor_rd_mem, wr_mem_depth, monitor_wr_mem}
use realboy.Monitor.Depth.{wr_mem_depth_enough, internals-monitor_wr_mem}
use realboy.Monitor.Joypad.{rd_mem-wr_mem_joypad}
use realboy.Monitor.Ram.{rd_mem-wr_mem_same, rd_mem-wr_mem_other}
use realboy.Monitor.Run.{
  exec_next, monitor_set_key, key_enter, executes, presses, Reaches, here, then_step, Reaches-Valid,
}
use realboy.Tests.Data.{
  test_mbc, test_ppu, test_ppu-Valid, one_object, test_machine, test_machine-Valid,
}

-- The first object is in the table.
abbrev first_object : Objects
first_object j = j == 0

abbrev with_object : Machine
with_object = record test_machine { ppu = one_object }

with_object-Valid : MachineValidFrom first_object with_object
with_object-Valid =
    let (rows, hash) =
      oam_rehash-HashRows test_ppu test_ppu-Valid 0x20 (omega arith) test_ppu-Valid.hash_valid.0
        test_ppu-Valid.hash_valid.1 test_ppu-Valid.hash_valid.2 0 (omega arith) refl in
    record {
      cpu_valid = test_machine-Valid.cpu_valid;
      ppu_valid =
          with_oam-Valid test_ppu one_object.oam one_object.oam_hash test_ppu-Valid
            (λ i. ground arith)
            (rows, mark test_ppu-Valid.hash_valid.1 0, hash, λ j e. ground arith);
      mbc_valid = test_machine-Valid.mbc_valid;
      io_bytes = test_machine-Valid.io_bytes;
    }

-- An instruction, a press of the start button, and another instruction.
abbrev three_steps : Machine
three_steps = exec_next (monitor_set_key true key_enter 1 (exec_next with_object))

three_steps-Reaches : Reaches with_object three_steps
three_steps-Reaches =
    then_step _ _ _
      (then_step _ _ _ (then_step _ _ _ (here _) (executes with_object))
        (presses _ true key_enter 1))
      (executes _)

Reaches-Valid_example : MachineValidFrom first_object three_steps
Reaches-Valid_example =
    Reaches-Valid first_object with_object three_steps three_steps-Reaches with_object-Valid

wr_mem_depth_enough_example :
    wr_mem_depth 7 test_machine 0xff46 0xc1 ≡ monitor_wr_mem test_machine 0xff46 0xc1
wr_mem_depth_enough_example = wr_mem_depth_enough 5 test_machine 0xff46 0xc1

internals-monitor_wr_mem_example :
    internals (monitor_wr_mem test_machine 0xff46 0xc1).cpu ≡ internals test_machine.cpu
internals-monitor_wr_mem_example = internals-monitor_wr_mem test_machine 0xff46 0xc1

rd_mem-wr_mem_same_example : monitor_rd_mem (monitor_wr_mem test_machine 0xff80 0x42) 0xff80 ≡ 0x42
rd_mem-wr_mem_same_example = rd_mem-wr_mem_same test_machine 0xff80 0x42 (inr (omega arith))

rd_mem-wr_mem_other_example :
    monitor_rd_mem (monitor_wr_mem test_machine 0xff80 0x42) 0xff81
    ≡ monitor_rd_mem test_machine 0xff81
rd_mem-wr_mem_other_example =
    rd_mem-wr_mem_other test_machine 0xff80 0x42 (inr (omega arith)) 0xff81
      (λ e. absurd (omega arith))

rd_mem-wr_mem_joypad_example :
    monitor_rd_mem (monitor_wr_mem test_machine 0xff00 0x10) 0xff00 ≡ 0x17
rd_mem-wr_mem_joypad_example = rd_mem-wr_mem_joypad test_machine 0x10

rd_mem-wr_mem_bank_example : mbc1_rd_mem (mbc1_wr_mem test_mbc 0x2000 3) 0x4005 ≡ 0xc005 % 251
rd_mem-wr_mem_bank_example =
    rd_mem-wr_mem_bank test_mbc 0x2000 3 (omega arith) (omega arith) 5 (omega arith) (omega arith)
