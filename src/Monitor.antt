-- ===== src/Monitor.antt =====
-- monitor_rd_mem() and monitor_wr_mem() of monitor.c, which route an address to its owner.
pub mod Valid
pub mod Depth
pub mod Ram
pub mod Run
pub mod Joypad
pub mod Throttle
use realboy.Prelude.{
  ℕ, zero, suc, ◌+◌, ◌*◌, Bool, ◌&&◌, ◌||◌, bit_and, bit_or, leb, ◌==◌, if◌then◌else◌, to_bool,
  to_int, update,
}
use realboy.Machine.{Keys, Machine}
use realboy.Cpu.Port.{cpu_rd, cpu_wr}
use realboy.Ppu.Port.{ppu_rd, ppu_wr}
use realboy.Mbc.{mbc1_rd_mem, mbc1_wr_mem}

-- The two rows of the joypad's matrix: 1 is a released key.
abbrev pub button_bits : Keys → ℕ
button_bits k =
    to_int k.start_released * 8
    + to_int k.select_released * 4
    + to_int k.b_released * 2
    + to_int k.a_released

abbrev pub direction_bits : Keys → ℕ
direction_bits k =
    to_int k.down_released * 8
    + to_int k.up_released * 4
    + to_int k.left_released * 2
    + to_int k.right_released

-- The case 0xff00, where `p1` is the byte that was written there.
unfoldable pub rd_joypad : ℕ → Keys → ℕ
rd_joypad p1 k =
    if bit_and p1 0x30 == 0x30
    then 0x3f
    else (if to_bool (bit_and p1 0x10)
        then bit_or p1 (button_bits k)
        else bit_or p1 (direction_bits k))

-- The addresses that both functions hand to the ppu.
abbrev pub in_ppu : ℕ → Bool
in_ppu addr =
    (leb 0x8000 addr && leb addr 0x9fff)
    || ((leb 0xfe00 addr && leb addr 0xfe9f) || (leb 0xff40 addr && leb addr 0xff4b))

-- The case labels that the reading switch hands to the cpu.
abbrev pub in_cpu_io : ℕ → Bool
in_cpu_io addr =
    addr == 0xffff
    || (addr == 0xff0f
        || (addr == 0xff04
            || (addr == 0xff05 || (addr == 0xff06 || (addr == 0xff07 || addr == 0xff50)))))

unfoldable pub monitor_rd_mem : Machine → ℕ → ℕ
unfolding cpu_rd ppu_rd mbc1_rd_mem rd_joypad
monitor_rd_mem m addr =
    if in_ppu addr
    then ppu_rd m.ppu addr
    else (if leb 0xc000 addr && leb addr 0xdfff
        then cpu_rd m.cpu addr
        else (if leb 0xff80 addr && leb addr 0xfffe
            then cpu_rd m.cpu addr
            else (if leb addr 0xbfff
                then mbc1_rd_mem m.mbc addr
                else (if in_cpu_io addr
                    then cpu_rd m.cpu addr
                    else (if addr == 0xff00
                        then rd_joypad (m.tmp_ioregs addr) m.keys
                        else m.tmp_ioregs addr)))))

abbrev pub with_cpu_wr : Machine → ℕ → ℕ → Machine
with_cpu_wr m addr value = record m { cpu = cpu_wr m.cpu addr value }

-- The body of monitor_wr_mem(). Through the ppu's DMA it is entered once more, for addresses of
-- the object memory: `again` is that call.
unfoldable pub wr_mem_body : (Machine → ℕ → ℕ → Machine) → Machine → ℕ → ℕ → Machine
unfolding cpu_wr ppu_wr mbc1_wr_mem
wr_mem_body again m addr value =
    if addr == 0xffff
    then with_cpu_wr m addr value
    else (if addr == 0xff0f
        then with_cpu_wr m addr value
        else (if addr == 0xff04
            then with_cpu_wr m addr value
            else (if addr == 0xff05
                then with_cpu_wr m addr value
                else (if addr == 0xff06
                    then with_cpu_wr m addr value
                    else (if addr == 0xff07
                        then with_cpu_wr m addr value
                        else (if addr == 0xff50
                            then (let m' = with_cpu_wr m addr value in
                                record m' { mbc = mbc1_wr_mem m'.mbc addr value })
                            else (if in_ppu addr
                                then ppu_wr monitor_rd_mem again m addr value
                                else (if leb 0xc000 addr && leb addr 0xdfff
                                    then with_cpu_wr m addr value
                                    else (if leb 0xff80 addr && leb addr 0xfffe
                                        then with_cpu_wr m addr value
                                        else (if leb addr 0xbfff
                                            then record m { mbc = mbc1_wr_mem m.mbc addr value }
                                            else (if addr == 0xff00
                                                then record m {
                                                  tmp_ioregs =
                                                      update m.tmp_ioregs addr (bit_and value 0x30);
                                                }
                                                else record m {
                                                  tmp_ioregs = update m.tmp_ioregs addr value;
                                                })))))))))))

-- `depth` counts the calls that may be open at once. Two are enough: see `Monitor.Depth`.
unfoldable pub wr_mem_depth : ℕ → Machine → ℕ → ℕ → Machine
wr_mem_depth zero m addr value = m
wr_mem_depth (suc depth) m addr value = wr_mem_body (wr_mem_depth depth) m addr value

unfoldable pub monitor_wr_mem : Machine → ℕ → ℕ → Machine
monitor_wr_mem = wr_mem_depth 2
