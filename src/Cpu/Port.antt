-- ===== src/Cpu/Port.antt =====
-- cpu_rd(), cpu_wr() and cpu_request_intr() of emu/cpu/cpu.c.
pub mod Valid
use realboy.Prelude.{
  ℕ, ◌-◌, ◌&&◌, bit_and, bit_or, leb, ◌==◌, if◌then◌else◌, to_bool, to_int, update,
}
use realboy.Machine.{Cpu}

-- A read of an address that the cpu does not own prints an error and is 0.
unfoldable pub cpu_rd : Cpu → ℕ → ℕ
cpu_rd s addr =
    if leb 0xc000 addr && leb addr 0xdfff
    then s.wram (addr - 0xc000)
    else (if leb 0xff80 addr && leb addr 0xfffe
        then s.hram (addr - 0xff80)
        else (if addr == 0xffff
            then s.ie_reg
            else (if addr == 0xff0f
                then s.if_reg
                else (if addr == 0xff04
                    then s.div_reg
                    else (if addr == 0xff05
                        then s.tima_reg
                        else (if addr == 0xff06
                            then s.tma_reg
                            else (if addr == 0xff07
                                then s.tac_reg
                                else (if addr == 0xff50 then to_int s.disable_bootrom else 0))))))))

-- The inner switch on the clock select bits; no other value of two bits is possible.
abbrev pub divider_of : ℕ → ℕ
divider_of select =
    if select == 0 then 256 else (if select == 1 then 4 else (if select == 2 then 16 else 64))

unfoldable pub cpu_wr : Cpu → ℕ → ℕ → Cpu
cpu_wr s addr value =
    if leb 0xc000 addr && leb addr 0xdfff
    then record s { wram = update s.wram (addr - 0xc000) value }
    else (if leb 0xff80 addr && leb addr 0xfffe
        then record s { hram = update s.hram (addr - 0xff80) value }
        else (if addr == 0xffff
            then record s { ie_reg = value }
            else (if addr == 0xff0f
                then record s { if_reg = bit_and value 0x1f }
                else (if addr == 0xff04
                    then record s { div_reg = 0 }
                    else (if addr == 0xff05
                        then record s { tima_reg = value }
                        else (if addr == 0xff06
                            then record s { tma_reg = value }
                            else (if addr == 0xff07
                                then record s {
                                  tac_reg = bit_and value 7;
                                  tima_enabled = to_bool (bit_and value 4);
                                  tac_divider = divider_of (bit_and value 3);
                                }
                                else (if addr == 0xff50
                                    then record s { disable_bootrom = to_bool value }
                                    else s))))))))

-- `enum interrupt_mask`
pub data Interrupt : Type 0 where
  intr_vblank intr_lcd intr_timer intr_joypad : Interrupt

abbrev pub interrupt_mask : Interrupt → ℕ
interrupt_mask intr_vblank = 0x1
interrupt_mask intr_lcd = 0x2
interrupt_mask intr_timer = 0x4
interrupt_mask intr_joypad = 0x8

unfoldable pub cpu_request_intr : Cpu → Interrupt → Cpu
cpu_request_intr s im = record s { if_reg = bit_or s.if_reg (interrupt_mask im) }
