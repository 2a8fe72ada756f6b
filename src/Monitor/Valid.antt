-- ===== src/Monitor/Valid.antt =====
-- Well-formedness: monitor_rd_mem() and monitor_wr_mem() of monitor.c.
use realboy.Prelude.{
  ℕ, zero, suc, ◌<◌, arith, if-holds, leb, ◌&&◌, ◌==◌, Bytes, IsBytes, to_int, update-IsBytes,
  bit_and, Bool, true, false,
}
use realboy.Prelude.Bits.{bit_or-lt, bit_and-le}
use realboy.Machine.{Cpu, Mbc1, Keys, Machine}
use realboy.Machine.Hash.{Objects}
use realboy.Machine.Valid.{CpuValid, Mbc1Valid, MachineValidFrom}
use realboy.Cpu.Port.{cpu_wr}
use realboy.Cpu.Port.Valid.{cpu_rd-lt, cpu_wr-Valid}
use realboy.Mbc.{mbc1_wr_mem}
use realboy.Mbc.Valid.{mbc1_rd_mem-lt, mbc1_wr_mem-Valid}
use realboy.Ppu.Port.Valid.{ppu_rd-lt, ppu_wr-Valid}
use realboy.Monitor.{
  in_ppu, in_cpu_io, button_bits, direction_bits, rd_joypad, monitor_rd_mem, with_cpu_wr,
  wr_mem_body, wr_mem_depth, monitor_wr_mem,
}

to_int-lt : (b : Bool) → to_int b < 2
to_int-lt true = omega arith
to_int-lt false = omega arith

rd_joypad-lt : (p1 : ℕ) (k : Keys) → p1 < 256 → rd_joypad p1 k < 256
unfolding rd_joypad
rd_joypad-lt p1 k h =
    let bit = to_int-lt in
    let buttons : button_bits k < 256 =
      omega
        (arith, bit k.start_released, bit k.select_released, bit k.b_released, bit k.a_released) in
    let directions : direction_bits k < 256 =
      omega (
        arith,
        bit k.down_released,
        bit k.up_released,
        bit k.left_released,
        bit k.right_released,
      ) in
    ground
      (arith, bit_or-lt p1 (button_bits k) h buttons, bit_or-lt p1 (direction_bits k) h directions)

-- A load from any address of a valid machine is a byte.
pub monitor_rd_mem-lt :
    {base : Objects}
    → (m : Machine) (addr : ℕ) → MachineValidFrom base m
    → monitor_rd_mem m addr < 256
unfolding monitor_rd_mem
monitor_rd_mem-lt m addr v =
    let rule = if-holds (λ (n : ℕ). n < 256) in
    rule (in_ppu addr) _ _ (ppu_rd-lt m.ppu addr v.ppu_valid) (
      rule (leb 0xc000 addr && leb addr 0xdfff) _ _ (cpu_rd-lt m.cpu addr v.cpu_valid) (
        rule (leb 0xff80 addr && leb addr 0xfffe) _ _ (cpu_rd-lt m.cpu addr v.cpu_valid) (
          rule (leb addr 0xbfff) _ _ (mbc1_rd_mem-lt m.mbc addr v.mbc_valid) (
            rule (in_cpu_io addr) _ _ (cpu_rd-lt m.cpu addr v.cpu_valid) (
              rule (addr == 0xff00) _ _ (rd_joypad-lt (m.tmp_ioregs addr) m.keys (v.io_bytes addr))
                (v.io_bytes addr))))))

-- One part of a valid machine is replaced by another valid part.
with_cpu-Valid :
    {base : Objects}
    → (m : Machine) (s : Cpu) → MachineValidFrom base m
    → CpuValid s
    → MachineValidFrom base (record m { cpu = s })
with_cpu-Valid m s v w = record {
  cpu_valid = w;
  ppu_valid = v.ppu_valid;
  mbc_valid = v.mbc_valid;
  io_bytes = v.io_bytes;
}

with_mbc-Valid :
    {base : Objects}
    → (m : Machine) (s : Mbc1) → MachineValidFrom base m
    → Mbc1Valid s
    → MachineValidFrom base (record m { mbc = s })
with_mbc-Valid m s v w = record {
  cpu_valid = v.cpu_valid;
  ppu_valid = v.ppu_valid;
  mbc_valid = w;
  io_bytes = v.io_bytes;
}

with_io-Valid :
    {base : Objects}
    → (m : Machine) (f : Bytes) → MachineValidFrom base m
    → IsBytes f
    → MachineValidFrom base (record m { tmp_ioregs = f })
with_io-Valid m f v w = record {
  cpu_valid = v.cpu_valid;
  ppu_valid = v.ppu_valid;
  mbc_valid = v.mbc_valid;
  io_bytes = w;
}

module _ {base : Objects} (again : Machine → ℕ → ℕ → Machine)
    (again_valid : (m : Machine) (addr value : ℕ)
      → MachineValidFrom base m
      → value < 256
      → MachineValidFrom base (again m addr value)) where
  wr_mem_body-Valid :
      (m : Machine) (addr value : ℕ)
      → MachineValidFrom base m
      → value < 256
      → MachineValidFrom base (wr_mem_body again m addr value)
  unfolding wr_mem_body
  wr_mem_body-Valid m addr value v h =
      let rule = if-holds (MachineValidFrom base) in
      let cpu =
        with_cpu-Valid m (cpu_wr m.cpu addr value) v
          (cpu_wr-Valid m.cpu addr value v.cpu_valid h) in
      let mbc = mbc1_wr_mem-Valid m.mbc addr value v.mbc_valid h in
      let io = λ (b : ℕ) (k : b < 256).
        with_io-Valid m _ v (update-IsBytes m.tmp_ioregs addr b v.io_bytes k) in
      rule (addr == 0xffff) _ _ cpu (
        rule (addr == 0xff0f) _ _ cpu (
          rule (addr == 0xff04) _ _ cpu (
            rule (addr == 0xff05) _ _ cpu (
              rule (addr == 0xff06) _ _ cpu (
                rule (addr == 0xff07) _ _ cpu (
                  rule (addr == 0xff50) _ _
                    (with_mbc-Valid (with_cpu_wr m addr value) (mbc1_wr_mem m.mbc addr value) cpu
                      mbc)
                    (rule (in_ppu addr) _ _
                      (ppu_wr-Valid monitor_rd_mem again monitor_rd_mem-lt again_valid m addr value
                        v h)
                      (rule (leb 0xc000 addr && leb addr 0xdfff) _ _ cpu (
                        rule (leb 0xff80 addr && leb addr 0xfffe) _ _ cpu (
                          rule (leb addr 0xbfff) _ _
                            (with_mbc-Valid m (mbc1_wr_mem m.mbc addr value) v mbc)
                            (rule (addr == 0xff00) _ _
                              (io (bit_and value 0x30) (omega (arith, bit_and-le value 0x30)))
                              (io value h))))))))))))

wr_mem_depth-Valid :
    {base : Objects}
    → (depth : ℕ) (m : Machine) (addr value : ℕ) → MachineValidFrom base m
    → value < 256
    → MachineValidFrom base (wr_mem_depth depth m addr value)
unfolding wr_mem_depth
wr_mem_depth-Valid zero m addr value v h = v
wr_mem_depth-Valid (suc depth) m addr value v h =
    wr_mem_body-Valid (wr_mem_depth depth) (wr_mem_depth-Valid depth) m addr value v h

-- A store of a byte to any address keeps a valid machine valid.
pub monitor_wr_mem-Valid :
    {base : Objects}
    → (m : Machine) (addr value : ℕ) → MachineValidFrom base m
    → value < 256
    → MachineValidFrom base (monitor_wr_mem m addr value)
unfolding monitor_wr_mem
monitor_wr_mem-Valid = wr_mem_depth-Valid 2
